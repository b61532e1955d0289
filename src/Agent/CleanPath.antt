-- ===== src/Agent/CleanPath.antt =====
-- filepath.Clean on Unix, as its documentation gives it: empty and "." parts go, ".." goes with the
-- part before it, and at the start of a rooted path alone.
pub mod Laws
use m_cloud.Base.{
  ℕ, Bool, true, false, ◌||◌, List, [], ◌∷◌, ◌++◌, reverse, Text, codes, split, joined, ◌==◌,
  starts_with, if◌then◌else◌,
}

abbrev pub slash : ℕ
slash = b'/'

abbrev pub dot_dot : Text
dot_dot = codes ".."

abbrev pub one_dot : Text
one_dot = codes "."

-- ".." at the stack of parts kept so far, the last first.
unfoldable pub step_up : Bool → List Text → List Text
step_up true [] = []
step_up false [] = dot_dot ∷ []
step_up rooted (top ∷ rest) = if top == dot_dot then dot_dot ∷ top ∷ rest else rest

unfoldable pub push : Bool → List Text → Text → List Text
unfolding step_up
push rooted stack part =
    if part == [] || part == one_dot
    then stack
    else if part == dot_dot
    then step_up rooted stack
    else part ∷ stack

unfoldable pub push_all : Bool → List Text → List Text → List Text
unfolding push
push_all rooted stack [] = stack
push_all rooted stack (p ∷ ps) = push_all rooted (push rooted stack p) ps

unfoldable pub rendered : Bool → List Text → Text
rendered true parts = slash ∷ joined slash parts
rendered false [] = one_dot
rendered false (p ∷ ps) = joined slash (p ∷ ps)

unfoldable pub clean : Text → Text
unfolding push_all rendered
clean path =
    let rooted = starts_with path (slash ∷ []) in
    rendered rooted (reverse (push_all rooted [] (split slash path)))
