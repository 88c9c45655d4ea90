-- ===== src/Stack/Down/Serves.antt =====
-- `down`: the requests of its parts, to a daemon that does as it is told.
use aisb.Prelude.{
  Option, is_empty, is_empty-sorted, contains, all, Dict, Bool-cases, inl, inr, String, ◌≡◌, refl,
  sym, ap, ◌∙◌, Bool, true, false, not, none, some, List, [], ◌∷◌, ◌++◌, ◌==◌, map, keep,
  if◌then◌else◌, append_assoc, append-nil,
}
use aisb.Prelude.Results.{ok}
use aisb.Transport.{json, Kind, Request, Transport, answered, exchange}
use aisb.Transport.Actions.{Action}
use aisb.Stack.Up.{Payload, no_payload, forced}
use aisb.Stack.Down.{
  name_or_id, Listed, Network, World, shown_name, foreign, label_filter, container_path,
  network_path, volume_path, remove_containers, network_step, remove_networks, remove_volumes,
  volumes_if,
}

-- a transport outside a dry run, after what it has sent
abbrev pub at : List (Kind × Request Payload) → Transport Payload
at sent = record { plan = none; sent = sent }

-- the paths of the DELETE requests that were sent, the first one first
abbrev pub deleted : List (Kind × Request Payload) → List String
deleted [] = []
deleted ((k, r) ∷ sent) =
    if r.method == "DELETE" then deleted sent ++ (r.path ∷ []) else deleted sent

-- Nothing is foreign exactly if what is attached is ours.
no_foreign :
    (ours : List String) (attached : Dict (Option String))
    → is_empty (foreign ours attached) ≡ all (λ e. contains ours e.0) attached
unfolding foreign
no_foreign ours attached =
    is_empty-sorted (map (λ e. name_or_id e.0 e.1) (keep (λ e. not (contains ours e.0)) attached))
    ∙ none_kept attached
  where
    none_kept :
        (attached : Dict (Option String))
        → is_empty (map (λ e. name_or_id e.0 e.1) (keep (λ e. not (contains ours e.0)) attached))
          ≡ all (λ e. contains ours e.0) attached
    none_kept [] = refl
    none_kept (e ∷ es) = elim (Bool-cases (contains ours e.0)) [
      | inl k ↦ rw k (none_kept es)
      | inr k ↦ rw k refl
    ]

module _ {A E : Type 0} (w : World A E) where
  -- A daemon that deletes what it is told to, and whose answers, whatever was sent before, are: these
  -- containers of the stack, these networks, these volumes, and of each network whether only
  -- containers of `ours` are attached.
  pub record Serves (name : String) (rows : List Listed) (ours : List String) (nets : List Network)
      (is_free : Network → Bool) (vols : List String) : Type 0 where
    pub deletes :
        (sent : List (Kind × Request Payload)) (path : String) (payload : Payload)
        → (a : A) × (w.daemon sent json
              (record { method = "DELETE"; path = path; payload = payload })
            ≡ ok a)
    pub lists :
        (sent : List (Kind × Request Payload))
        → (a : A) × (w.daemon sent json
              (record { method = "GET"; path = "/containers/json"; payload = label_filter w name })
            ≡ ok a)
          × (w.listed_rows (answered a) ≡ rows)
    pub joins :
        (sent : List (Kind × Request Payload))
        → (a : A) × (w.daemon sent json
              (record { method = "GET"; path = "/networks"; payload = label_filter w name })
            ≡ ok a)
          × (w.networks_of (answered a) ≡ nets)
    pub inspects :
        (sent : List (Kind × Request Payload)) (n : Network)
        → (a : A) × (w.daemon sent json
              (record { method = "GET"; path = network_path w n; payload = no_payload })
            ≡ ok a)
          × (all (λ e. contains ours e.0) (w.attached_of (answered a)) ≡ is_free n)
    pub keeps :
        (sent : List (Kind × Request Payload))
        → (a : A) × (w.daemon sent json
              (record { method = "GET"; path = "/volumes"; payload = label_filter w name })
            ≡ ok a)
          × (w.listed_volumes (answered a) ≡ vols)

  module _ (name : String) (rows : List Listed) (ours : List String) (nets : List Network)
      (is_free : Network → Bool) (vols : List String)
      (serves : Serves name rows ours nets is_free vols) where
    pub removes_containers :
        (some_rows : List Listed) (sent : List (Kind × Request Payload))
        → (later : List (Kind × Request Payload)) × (remove_containers w some_rows (at sent)
            ≡ (ok (map shown_name some_rows), at later))
          × (deleted later ≡ deleted sent ++ map (container_path w) some_rows)
    unfolding remove_containers exchange
    removes_containers [] sent = (sent, refl, sym (append-nil (deleted sent)))
    removes_containers (r ∷ some_rows) sent =
        let (a, gone) = serves.deletes sent (container_path w r) forced in
        let (later, same, paths) = removes_containers some_rows (
          (json, record { method = "DELETE"; path = container_path w r; payload = forced })
          ∷ sent) in
        (
          later,
          rw (gone, same) refl,
          paths
              ∙ append_assoc (deleted sent) (container_path w r ∷ [])
                  (map (container_path w) some_rows),
        )

    -- What a run over networks gives: those that are free are removed, the others are kept.
    abbrev pub Cleared :
        List Network
        → List (Kind × Request Payload)
        → Action Payload E (List String × List (String × List String))
        → Type 0
    Cleared some_nets sent action =
        (later : List (Kind × Request Payload)) × (kept : List (String × List String)) × (action
            (at sent)
          ≡ (ok (map (λ n. n.name) (keep is_free some_nets), kept), at later))
        × (map (λ k. k.0) kept ≡ map (λ n. n.name) (keep (λ n. not (is_free n)) some_nets))
        × (deleted later ≡ deleted sent ++ map (network_path w) (keep is_free some_nets))

    clears_one :
        (fs : List String) (n : Network) (some_nets : List Network)
        (rest : Action Payload E (List String × List (String × List String)))
        (sent : List (Kind × Request Payload))
        → is_empty fs ≡ is_free n
        → ((sent : List (Kind × Request Payload)) → Cleared some_nets sent rest)
        → Cleared (n ∷ some_nets) sent (network_step w fs n rest)
    unfolding exchange
    clears_one [] n some_nets rest sent e others =
        let (a, gone) = serves.deletes sent (network_path w n) no_payload in
        let (later, kept, same, names, paths) = others (
          (json, record { method = "DELETE"; path = network_path w n; payload = no_payload })
          ∷ sent) in
        (
          later,
          kept,
          rw (gone, same, sym e) refl,
          rw (sym e) names,
          rw (sym e) (
              paths
              ∙ append_assoc (deleted sent) (network_path w n ∷ [])
                  (map (network_path w) (keep is_free some_nets))),
        )
    clears_one (f ∷ fs) n some_nets rest sent e others =
        let (later, kept, same, names, paths) = others sent in
        (
          later,
          (n.name, f ∷ fs) ∷ kept,
          rw (same, sym e) refl,
          rw (sym e) (ap (λ ns. n.name ∷ ns) names),
          rw (sym e) paths,
        )

    pub clears_networks :
        (some_nets : List Network) (sent : List (Kind × Request Payload))
        → Cleared some_nets sent (remove_networks w ours some_nets)
    unfolding remove_networks exchange
    clears_networks [] sent = (sent, [], refl, refl, sym (append-nil (deleted sent)))
    clears_networks (n ∷ some_nets) sent =
        let (a, seen, free) = serves.inspects sent n in
        let asked : Kind × Request Payload =
          (json, record { method = "GET"; path = network_path w n; payload = no_payload }) in
        let one =
          clears_one (foreign ours (w.attached_of (answered a))) n some_nets
            (remove_networks w ours some_nets) (asked ∷ sent)
            (no_foreign ours (w.attached_of (answered a)) ∙ free) (clears_networks some_nets) in
        (one.0, one.1, rw seen one.2, one.3, one.4)

    removes_volumes :
        (some_vols : List String) (sent : List (Kind × Request Payload))
        → (later : List (Kind × Request Payload)) × (remove_volumes w some_vols (at sent)
            ≡ (ok tt, at later))
          × (deleted later ≡ deleted sent ++ map (volume_path w) some_vols)
    unfolding remove_volumes exchange
    removes_volumes [] sent = (sent, refl, sym (append-nil (deleted sent)))
    removes_volumes (v ∷ some_vols) sent =
        let (a, gone) = serves.deletes sent (volume_path w v) no_payload in
        let (later, same, paths) = removes_volumes some_vols (
          (json, record { method = "DELETE"; path = volume_path w v; payload = no_payload })
          ∷ sent) in
        (
          later,
          rw (gone, same) refl,
          paths
              ∙ append_assoc (deleted sent) (volume_path w v ∷ []) (map (volume_path w) some_vols),
        )

    pub deletes_volumes :
        (wanted : Bool) (sent : List (Kind × Request Payload))
        → (later : List (Kind × Request Payload)) × (volumes_if w wanted name (at sent)
            ≡ (ok (if wanted then some vols else none), at later))
          × (deleted later ≡ deleted sent ++ (if wanted then map (volume_path w) vols else []))
    unfolding volumes_if exchange
    deletes_volumes false sent = (sent, refl, sym (append-nil (deleted sent)))
    deletes_volumes true sent =
        let (a, seen, listed) = serves.keeps sent in
        let asked : Kind × Request Payload =
          (json, record { method = "GET"; path = "/volumes"; payload = label_filter w name }) in
        let (later, same, paths) = removes_volumes vols (asked ∷ sent) in
        (later, rw (seen, listed, same) refl, paths)
