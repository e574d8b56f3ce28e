-- ===== src/User/Labels.antt =====
-- `labelsForV2rayUser` and `imageForV2rayUser`, which nothing calls.
use v2ray_operator.Prelude.{
  String, true, false, none, some, [], ◌∷◌, ◌≡◌, ◌∙◌, arith, if◌then◌else◌,
}
use v2ray_operator.Prelude.Maps.{Dict}
use v2ray_operator.Prelude.Text.{split, contains}
use v2ray_operator.V2fly.Grpc.{error_of}
use v2ray_operator.Cluster.Effect.{M, Reply, ok, err, pure, ◌>>=◌}
use v2ray_operator.Cluster.Requests.{History}
use v2ray_operator.Cluster.Env.{Env}
use v2ray_operator.Cluster.Trace.{panics}
use v2ray_operator.V2ray.Image.{image_tag}
use v2ray_operator.V2ray.Image.Panics.{panics-bind, several-split}

unfoldable pub image_for_v2ray_user : Env → Reply String
image_for_v2ray_user E = elim (E.lookup_env "V2RAYUSER_IMAGE") [
  | none ↦ err (error_of "Unable to find V2RAYUSER_IMAGE environment variable with the image")
  | some image ↦ ok image
]

abbrev user_labels : String → String → Dict String
user_labels name tag =
    ("app.kubernetes.io/name", "V2rayUser")
    ∷ ("app.kubernetes.io/instance", name)
    ∷ ("app.kubernetes.io/version", tag)
    ∷ ("app.kubernetes.io/part-of", "v2ray-operator")
    ∷ ("app.kubernetes.io/created-by", "controller-manager")
    ∷ []

-- The tag is read as in `labelsForV2ray`.
unfoldable pub labels_for_v2ray_user : Env → String → M (Dict String)
labels_for_v2ray_user E name = do
  tag ← image_tag (image_for_v2ray_user E)
  pure (user_labels name tag)

image_found :
    (E : Env) (image : String)
    → E.lookup_env "V2RAYUSER_IMAGE" ≡ some image
    → image_for_v2ray_user E ≡ ok image
unfolding image_for_v2ray_user
image_found E image set = ground arith

-- As for the V2ray controller: where the environment names an image, making the labels panics exactly
-- if the image holds no colon.
panics-labels_for_v2ray_user :
    (E : Env) (name image : String) (h : History)
    → E.lookup_env "V2RAYUSER_IMAGE" ≡ some image
    → panics (labels_for_v2ray_user E name h).0 ≡ (if contains image ":" then false else true)
unfolding labels_for_v2ray_user image_tag
panics-labels_for_v2ray_user E name image h set =
    rw (image_found E image set)
      (panics-bind (split b':' image) (user_labels name) h ∙ rw several-split)
