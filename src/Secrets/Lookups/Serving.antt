-- ===== src/Secrets/Lookups/Serving.antt =====
-- A cluster that serves the secrets that internal/core/secret.go has applied to it.
use nauth.Common.{
  StringMap, lookup, String, Bool, true, none, some, List, [], ◌∷◌, ok, ◌&&◌, ◌==◌, Option, false,
  if◌then◌else◌,
}
use nauth.Effects.{Call, ObjectMeta, K8sSecret, World, History, done}

-- A secret as it was applied: its metadata and its contents.
pub record Applied : Type 0 where
  pub meta : ObjectMeta
  pub contents : StringMap

-- The secrets that were applied without an error, the newest one first.
abbrev pub recorded : History → List Applied
recorded [] = []
recorded (done (Call.apply_secret meta contents) ∷ h) =
    (record { meta = meta; contents = contents }) ∷ recorded h
recorded (_ ∷ h) = recorded h

abbrev has_value : String → Option String → Bool
has_value v none = false
has_value v (some w) = w == v

-- A label selector of Kubernetes: there is each of its labels, with its value.
abbrev selects : StringMap → StringMap → Bool
selects [] labels = true
selects ((k, v) ∷ selector) labels = has_value v (lookup k labels) && selects selector labels

-- The secrets of a namespace that a selector selects.
abbrev selected : String → StringMap → List Applied → List K8sSecret
selected namespace selector [] = []
selected namespace selector (a ∷ applied) =
    let rest = selected namespace selector applied in
    if a.meta.namespace == namespace && selects selector a.meta.labels
    then (record { labels = a.meta.labels; contents = a.contents }) ∷ rest
    else rest

abbrev turned : List Applied → List Applied → List Applied
turned [] later = later
turned (a ∷ applied) later = turned applied (a ∷ later)

-- A cluster that lists the secrets that were applied, the newest or the oldest one first.
abbrev pub serving : World → Bool → World
serving world newest_first = record world {
  get_secrets_by_labels = λ h namespace selector.
      let applied = if newest_first then recorded h else turned (recorded h) [] in
      ok (selected namespace selector applied);
}
