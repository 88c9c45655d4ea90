-- ===== src/Stack/Down/Deletes.antt =====
-- `down`: what it deletes.
use aisb.Prelude.{
  String, ◌≡◌, refl, ap, ◌∙◌, Bool, not, none, some, List, [], ◌∷◌, ◌++◌, map, keep, if◌then◌else◌,
  append_assoc,
}
use aisb.Prelude.Results.{ok}
use aisb.Transport.{json, Kind, Request, exchange}
use aisb.Stack.Up.{Payload}
use aisb.Stack.Down.{
  Listed, Network, World, is_chosen, shown_name, label_filter, containers, container_path,
  network_path, volume_path, rest_of, down,
}
use aisb.Stack.Down.Serves.{
  at, deleted, Serves, removes_containers, clears_networks, deletes_volumes,
}

keep_all : (rows : List Listed) → keep (is_chosen []) rows ≡ rows
unfolding is_chosen
keep_all [] = refl
keep_all (r ∷ rows) = ap (λ rs. r ∷ rs) (keep_all rows)

-- Outside a dry run, let a daemon delete what it is told to, list these containers, networks and
-- volumes of the stack, and say of each network, whatever was sent before, whether a container is
-- attached to it that is none of the listed ones. Then `down` for the whole stack returns; it
-- deletes, in this order and nothing else, every listed container, the networks to which no other
-- container is attached, and, only if it is told to, the listed volumes; and it returns the names of
-- what it removed, and of the networks it kept.
pub down_exact :
    {A E : Type 0} (w : World A E) (name : String) (rows : List Listed) (nets : List Network)
    (is_free : Network → Bool) (vols : List String) (volumes : Bool)
    (sent : List (Kind × Request Payload))
    → Serves w name rows (map (λ r. r.id) rows) nets is_free vols
    → (kept : List (String × List String)) × (later : List (Kind × Request Payload)) × (down w name
          [] volumes
          (at sent)
        ≡ (
          ok (record {
            stack = name;
            containers = map shown_name rows;
            networks = some (map (λ n. n.name) (keep is_free nets), kept);
            volumes = if volumes then some vols else none;
          }),
          at later,
        ))
      × (map (λ k. k.0) kept ≡ map (λ n. n.name) (keep (λ n. not (is_free n)) nets))
      × (deleted later
          ≡ deleted sent
            ++ (map (container_path w) rows
                ++ (map (network_path w) (keep is_free nets)
                    ++ (if volumes then map (volume_path w) vols else []))))
unfolding down containers rest_of exchange
down_exact w name rows nets is_free vols volumes sent serves =
    let ours = map (λ r. r.id) rows in
    let (a, seen, listed) = serves.lists sent in
    let one : Kind × Request Payload =
      (json, record { method = "GET"; path = "/containers/json"; payload = label_filter w name }) in
    let (s1, gone, paths1) =
      removes_containers w name rows ours nets is_free vols serves rows (one ∷ sent) in
    let (b, joined, found) = serves.joins s1 in
    let two : Kind × Request Payload =
      (json, record { method = "GET"; path = "/networks"; payload = label_filter w name }) in
    let (s2, kept, cleared, names, paths2) =
      clears_networks w name rows ours nets is_free vols serves nets (two ∷ s1) in
    let (s3, last, paths3) = deletes_volumes w name rows ours nets is_free vols serves volumes s2 in
    (
      kept,
      s3,
      rw (seen, listed, keep_all rows, gone, joined, found, cleared, last) refl,
      names,
      paths3
          ∙ ap (λ ps. ps ++ (if volumes then map (volume_path w) vols else []))
              (paths2 ∙ ap (λ ps. ps ++ map (network_path w) (keep is_free nets)) paths1)
          ∙ append_assoc (deleted sent ++ map (container_path w) rows)
              (map (network_path w) (keep is_free nets))
              (if volumes then map (volume_path w) vols else [])
          ∙ append_assoc (deleted sent) (map (container_path w) rows) (
              map (network_path w) (keep is_free nets)
              ++ (if volumes then map (volume_path w) vols else [])),
    )
