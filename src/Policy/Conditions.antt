-- ===== src/Policy/Conditions.antt =====
-- `image_of`, `tag_of` and `_conditions` of src/aisb/policy.py: what a rule's `deny_if` finds in
-- the arguments of an operation.
use Prim.Native.String.{String}
use text.Mathlib.Text.{starts_with}
use aisb.Prelude.{
  Bool, true, false, ◌&&◌, ◌||◌, Option, none, some, List, [], ◌∷◌, ◌++◌, ◌==◌, any, contains,
  has_code, has_text, after_last, partition, if◌then◌else◌,
}
use aisb.Glob.{fnmatch}
use aisb.Policy.{Values, many}

-- `volumes` is a flag of some operations and a list of mounts of others.
pub data Volumes : Type 0 where
  no_volumes : Volumes
  flag : Bool → Volumes
  mounts : List String → Volumes

-- The arguments that are looked at. A text is `none` where the argument is missing or no text, and a
-- flag is true where the argument is True.
pub record Kwargs : Type 0 where
  pub image : Option String
  pub ref : Option String
  pub network : Option String
  pub privileged : Bool
  pub force : Bool
  pub volume : List String
  pub volumes : Volumes

-- the table `deny_if`
pub record Condition : Type 0 where
  pub privileged : Bool
  pub image_tag : Values
  pub image : Values
  pub host_network : Bool
  pub docker_socket : Bool
  pub volumes : Bool
  pub force : Bool

pub data Hit : Type 0 where
  privileged_container host_networking socket_mount volume_data forced : Hit
  tag_denied image_denied : String → Hit

abbrev pub text_or : Option String → Option String → Option String
text_or none other = other
text_or (some t) other = if t == "" then other else some t

-- `image_of`
unfoldable pub image_of : Kwargs → Option String
image_of k = text_or k.image (text_or k.ref none)

-- `tag_of`
unfoldable pub tag_of : String → String
tag_of image =
    let last = after_last b'/' image in
    if has_code b'@' image
    then "digest"
    else if has_code b':' last
    then (let p = partition b':' last in p.after)
    else "latest"

-- op.startswith(("containers.run", "images.pull", "fleet.ship", "images.tag"))
unfoldable pub takes_image : String → Bool
takes_image op =
    starts_with op "containers.run"
    || starts_with op "images.pull"
    || starts_with op "fleet.ship"
    || starts_with op "images.tag"

abbrev pub mounts_of : Volumes → List String → List String
mounts_of (flag b) volume = []
mounts_of no_volumes volume = volume
mounts_of (mounts ms) [] = ms
mounts_of (mounts ms) (v ∷ vs) = v ∷ vs

abbrev pub is_flag_set : Volumes → Bool
is_flag_set (flag b) = b
is_flag_set _ = false

abbrev pub is_host_network : Option String → Bool
is_host_network none = false
is_host_network (some n) = n == "host"

abbrev pub hit_if : Bool → Hit → List Hit
hit_if true h = h ∷ []
hit_if false h = []

abbrev pub image_hits : Option String → Condition → List Hit
image_hits none cond = []
image_hits (some image) cond =
    hit_if (contains (many cond.image_tag) (tag_of image)) (tag_denied image)
    ++ hit_if (any (λ g. fnmatch image g) (many cond.image)) (image_denied image)

-- `_conditions`
unfoldable pub conditions : Condition → Kwargs → String → List Hit
unfolding image_of tag_of takes_image many
conditions cond k op =
    let image : Option String = if takes_image op then image_of k else none in
    let vols = mounts_of k.volumes k.volume in
    hit_if (cond.privileged && k.privileged) privileged_container
    ++ image_hits image cond
    ++ hit_if (cond.host_network && is_host_network k.network) host_networking
    ++ hit_if (cond.docker_socket && any (has_text "docker.sock") vols) socket_mount
    ++ hit_if (cond.volumes && is_flag_set k.volumes) volume_data
    ++ hit_if (cond.force && k.force) forced
