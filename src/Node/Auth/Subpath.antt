-- ===== src/Node/Auth/Subpath.antt =====
-- The test of a path against a prefix, and the subresource that a path stands for.
use virtual_kubelet_cmd.Base.{
  ℕ, Bool, true, false, ◌&&◌, some, List, [], ◌∷◌, ◌==◌, ◌≡◌, refl, nat_equality, if◌then◌else◌,
  arith, codes,
}
use virtual_kubelet_cmd.Node.Auth.{Request, is_slash_at, is_subpath, first_of, get_subresource}

-- The path ends at the end of the prefix, or goes on there with a slash.
abbrev pub ends_or_slash : List ℕ → Bool
ends_or_slash [] = true
ends_or_slash (c ∷ cs) = c == b'/'

abbrev pub lies_below : List ℕ → List ℕ → Bool
lies_below cs [] = ends_or_slash cs
lies_below [] (d ∷ ds) = false
lies_below (c ∷ cs) (d ∷ ds) = c == d && lies_below cs ds

-- isSubpath never reads past the end of the path, and it is true of the prefix itself and of the
-- paths that go on with a slash where the prefix ends.
pub is_subpath_below :
    (subpath path : List ℕ) → is_subpath subpath path ≡ some (lies_below subpath path)
unfolding is_subpath is_slash_at
is_subpath_below [] [] = refl
is_subpath_below (c ∷ cs) [] = refl
is_subpath_below [] (d ∷ ds) = refl
is_subpath_below (c ∷ cs) (d ∷ ds) = ground (arith, is_subpath_below cs ds)

-- The subresource of every request is found, and it is the first of "stats", "metrics" and "log"
-- whose path the request's path lies below, or else "proxy".
pub get_subresource_total :
    (r : Request)
    → get_subresource r
      ≡ some (
          if lies_below (codes r.path) (codes "/stats")
          then "stats"
          else if lies_below (codes r.path) (codes "/metrics")
          then "metrics"
          else if lies_below (codes r.path) (codes "/logs")
          then "log"
          else "proxy")
unfolding get_subresource first_of
get_subresource_total r =
    rw
      (
        is_subpath_below (codes r.path) (codes "/stats"),
        is_subpath_below (codes r.path) (codes "/metrics"),
        is_subpath_below (codes r.path) (codes "/logs"),
      )
      (ground arith)
