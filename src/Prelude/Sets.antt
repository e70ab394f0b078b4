-- ===== src/Prelude/Sets.antt =====
-- `HashSet` and `BTreeSet` of numbers: an ascending list without repetition.
use Prim.Native.Nat.{ℕ, ◌+◌, ◌≤◌}
use mathlib.Core.Bool.{Bool, true, false, ◌||◌}
use mathlib.Core.List.{List, [], ◌∷◌}
use mathlib.Core.Path.{◌≡◌}
use native.Mathlib.Omega.{arith}
use stitch_pty.Prelude.Tests.{◌==◌, ltb, if◌then◌else◌}

abbrev pub NatSet : Type 0
NatSet = List ℕ

unfoldable pub contains : NatSet → ℕ → Bool
contains [] k = false
contains (x ∷ xs) k = k == x || contains xs k

unfoldable pub insert : ℕ → NatSet → NatSet
insert k [] = k ∷ []
insert k (x ∷ xs) =
    let rest = x ∷ insert k xs in if ltb k x then k ∷ x ∷ xs else if k == x then x ∷ xs else rest

unfoldable pub remove : ℕ → NatSet → NatSet
remove k [] = []
remove k (x ∷ xs) = let rest = remove k xs in if k == x then rest else x ∷ rest

-- Ascending from `lo`, without repetition.
abbrev pub IsAscending : ℕ → NatSet → Type 0
IsAscending lo [] = Unit
IsAscending lo (x ∷ xs) = (lo ≤ x) × IsAscending (x + 1) xs

pub contains-insert :
    (k j : ℕ) (s : NatSet) → contains (insert k s) j ≡ (if j == k then true else contains s j)
unfolding contains insert
contains-insert k j [] = ground arith
contains-insert k j (x ∷ xs) = ground (arith, contains-insert k j xs)

pub contains-remove :
    (k j : ℕ) (s : NatSet) → contains (remove k s) j ≡ (if j == k then false else contains s j)
unfolding contains remove
contains-remove k j [] = ground arith
contains-remove k j (x ∷ xs) = ground (arith, contains-remove k j xs)

pub insert-IsAscending :
    (lo k : ℕ) (s : NatSet) → lo ≤ k → IsAscending lo s → IsAscending lo (insert k s)
unfolding insert
insert-IsAscending lo k [] h a = (h, tt)
insert-IsAscending lo k (x ∷ xs) h a = ground (arith, insert-IsAscending (x + 1) k xs)
