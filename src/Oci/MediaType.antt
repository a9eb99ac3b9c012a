-- ===== src/Oci/MediaType.antt =====
-- crates/ferro-oci-server/src/media_types.rs: the kinds of manifests.
use ferro_protocols.Prelude.{
  Bool, true, false, List, [], ◌∷◌, Option, none, some, ◌||◌, ◌&&◌, if◌then◌else◌,
}
use ferro_protocols.Prelude.Texts.{Text, codes, text_eq}
use ferro_protocols.Prelude.Cuts.{trim, split, strip_prefix}

abbrev pub oci_image_manifest : Text
oci_image_manifest = codes "application/vnd.oci.image.manifest.v1+json"

abbrev pub oci_image_index : Text
oci_image_index = codes "application/vnd.oci.image.index.v1+json"

abbrev pub docker_manifest_v2 : Text
docker_manifest_v2 = codes "application/vnd.docker.distribution.manifest.v2+json"

abbrev pub docker_manifest_list_v2 : Text
docker_manifest_list_v2 = codes "application/vnd.docker.distribution.manifest.list.v2+json"

pub data ManifestKind : Type 0 where
  image_manifest image_index artifact : ManifestKind

abbrev is_some : Option Text → Bool
is_some none = false
is_some (some s) = true

abbrev starts_with : Text → Text → Bool
starts_with p s = is_some (strip_prefix p s)

unfoldable pub ends_with : Text → Text → Bool
ends_with p [] = text_eq p []
ends_with p (c ∷ s) = text_eq p (c ∷ s) || ends_with p s

abbrev first_or : Text → List Text → Text
first_or d [] = d
first_or d (x ∷ xs) = x

abbrev kind_of : Text → Option ManifestKind
kind_of bare =
    if text_eq bare oci_image_manifest || text_eq bare docker_manifest_v2
    then some image_manifest
    else if text_eq bare oci_image_index || text_eq bare docker_manifest_list_v2
    then some image_index
    else if starts_with (codes "application/vnd.") bare && ends_with (codes "+json") bare
    then some artifact
    else none

unfoldable pub classify_manifest_media_type : Text → Option ManifestKind
classify_manifest_media_type ct = kind_of (trim (first_or ct (split b';' ct)))
