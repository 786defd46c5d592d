-- ===== src/Federation/Router.antt =====
-- internal/federation/router.go: the router. A URL of the configuration is taken to parse.
use oauth4os.Common.{
  String, Bool, true, false, ◌&&◌, ◌||◌, Option, none, some, List, [], ◌∷◌, ◌==◌, if◌then◌else◌,
  map,
}
use oauth4os.Common.Text.{has_prefix, has_suffix}
use oauth4os.Common.Text.Cut.{trim_prefix, cut_at}

pub record Cluster : Type 0 where
  pub name : String
  pub url : String
  pub indices : List String

pub record Router : Type 0 where
  pub clusters : List Cluster
  pub fallback : String

-- the inner loop of New: the last pattern "*" of a cluster takes the fallback
unfoldable pub star_fallback : List String → String → String → String
star_fallback [] url fallback = fallback
star_fallback (p ∷ ps) url fallback = star_fallback ps url (if p == "*" then url else fallback)

unfoldable pub fallback_of : List Cluster → String → String
unfolding star_fallback
fallback_of [] fallback = fallback
fallback_of (c ∷ cs) fallback = fallback_of cs (star_fallback c.indices c.url fallback)

abbrev pub first_url : List Cluster → String
first_url [] = ""
first_url (c ∷ cs) = c.url

unfoldable pub new : List Cluster → Router
unfolding fallback_of
new clusters = record { clusters = clusters; fallback = fallback_of clusters (first_url clusters) }

-- the parts around the first star
unfoldable pub glob_match : String → String → Bool
glob_match pat value = if pat == "*" then true else elim (cut_at b'*' pat) [
  | none ↦ pat == value
  | some (before, after) ↦ has_prefix value before && has_suffix value after
]

-- strings.SplitN(p, "/", 2)[0]
abbrev pub first_segment : String → String
first_segment p = elim (cut_at b'/' p) [ none ↦ p | some (a, b) ↦ a ]

unfoldable pub extract_index : String → String
extract_index path =
    let idx = first_segment (trim_prefix path "/") in
    if has_prefix idx "_" || has_prefix idx ".kibana" then "" else idx

unfoldable pub matches_any : List String → String → Bool
unfolding glob_match
matches_any [] index = false
matches_any (p ∷ ps) index = glob_match p index || matches_any ps index

-- the loops of Resolve
unfoldable pub first_cluster : List Cluster → String → Option Cluster
unfolding matches_any
first_cluster [] index = none
first_cluster (c ∷ cs) index =
    let rest = first_cluster cs index in if matches_any c.indices index then some c else rest

unfoldable pub resolve : Router → String → String × String
unfolding first_cluster extract_index
resolve r path =
    let index = extract_index path in
    if index == "" then (r.fallback, "default") else elim (first_cluster r.clusters index) [
      | none ↦ (r.fallback, "default")
      | some c ↦ (c.url, c.name)
    ]

abbrev pub name_of : Cluster → String
name_of c = c.name

unfoldable pub cluster_names : Router → List String
cluster_names r = map name_of r.clusters

-- `none` stands for the fallback, which the caller serves
unfoldable pub route : Router → String → Option String
unfolding resolve
route r path =
    let (upstream, name) = resolve r path in if upstream == r.fallback then none else some upstream
