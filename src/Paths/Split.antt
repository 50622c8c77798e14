-- ===== src/Paths/Split.antt =====
-- The string operations of `std` that the path helpers use, on text as a list of bytes.
use vitruvius.Base.{
  ℕ, nat_eq, list_eq, Bool, true, false, ◌&&◌, ◌||◌, Option, none, some, List, [], ◌∷◌, ◌++◌, Text,
  ◌==◌, if◌then◌else◌,
}

abbrev cons_head : ℕ → List Text → List Text
cons_head c [] = (c ∷ []) ∷ []
cons_head c (w ∷ ws) = (c ∷ w) ∷ ws

-- `s.split(sep)`
unfoldable pub split : ℕ → Text → List Text
split sep [] = [] ∷ []
split sep (c ∷ s) = let rest = split sep s in if c == sep then [] ∷ rest else cons_head c rest

-- `parts.join(sep)`
unfoldable pub join : ℕ → List Text → Text
join sep [] = []
join sep (w ∷ []) = w
join sep (w ∷ v ∷ ws) = w ++ (sep ∷ join sep (v ∷ ws))

-- `s.starts_with(pre)`
unfoldable pub starts_with : Text → Text → Bool
starts_with [] s = true
starts_with (c ∷ pre) [] = false
starts_with (c ∷ pre) (d ∷ s) = c == d && starts_with pre s

-- `s.contains(sub)`
unfoldable pub contains_seq : Text → Text → Bool
unfolding starts_with
contains_seq sub [] = starts_with sub []
contains_seq sub (c ∷ s) = starts_with sub (c ∷ s) || contains_seq sub s

-- `s.strip_suffix(suf)`
unfoldable pub strip_suffix : Text → Text → Option Text
strip_suffix suf [] = if suf == [] then some [] else none
strip_suffix suf (c ∷ s) =
    let rest = strip_suffix suf s in
    if (c ∷ s) == suf then some [] else elim rest [ none ↦ none | some t ↦ some (c ∷ t) ]

-- What stands before and after the last separator.
unfoldable pub rsplit_at : ℕ → Text → Option (Text × Text)
rsplit_at sep [] = none
rsplit_at sep (c ∷ s) = elim (rsplit_at sep s) [
  | some (before, after) ↦ some (c ∷ before, after)
  | none ↦ if c == sep then some ([], s) else none
]
