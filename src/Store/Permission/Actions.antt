-- ===== src/Store/Permission/Actions.antt =====
-- NormalizeActions of store.go.
use turjmp.Prelude.{
  ◌≡◌, refl, inl, inr, false, ◌||◌, List, [], ◌∷◌, if◌then◌else◌, Bool-cases, null, All, Text,
  codes,
}
use turjmp.Strings.{trim_space, split, join, one_of}
use turjmp.Strings.Split.{Lacks, split-Lacks, split-append}

-- The loop, on the actions that are in the result already.
unfoldable pub add_new : List Text → List Text → List Text
add_new seen [] = []
add_new seen (a ∷ more) =
    let action = trim_space a in
    let skipped = add_new seen more in
    let added = action ∷ add_new (action ∷ seen) more in
    if null action || one_of action seen then skipped else added

unfoldable pub normalize_actions : List Text → Text
unfolding add_new
normalize_actions actions =
    if null (add_new [] actions) then codes "connect" else join (b',' ∷ []) (add_new [] actions)

split-join :
    (words : List Text)
    → null words ≡ false
    → All (Lacks b',') words
    → split b',' (join (b',' ∷ []) words) ≡ words
unfolding join
split-join [] n h = absurd (cc n)
split-join (w ∷ []) n (h, hs) = split-Lacks b',' w h
split-join (w ∷ v ∷ words) n (h, hs) =
    rw (split-append b',' w (join (b',' ∷ []) (v ∷ words)) h, split-join (v ∷ words) refl hs) refl

-- No action has a comma in it.
unfoldable pub HaveNoComma : List Text → Type 0
HaveNoComma actions = All (λ a. Lacks b',' (trim_space a)) actions

add_new-Lacks :
    (seen actions : List Text) → HaveNoComma actions → All (Lacks b',') (add_new seen actions)
unfolding HaveNoComma add_new
add_new-Lacks seen [] h = tt
add_new-Lacks seen (a ∷ more) (h, hs) =
    elim (Bool-cases (null (trim_space a) || one_of (trim_space a) seen)) [
      | inl e ↦ rw e (add_new-Lacks seen more hs)
      | inr e ↦ rw e (h, add_new-Lacks (trim_space a ∷ seen) more hs)
    ]

-- The text that is stored, split at its commas, is the list of actions that the loop kept again, or the
-- action `connect` alone if it kept none, as long as no action has a comma in it.
split-normalize_actions :
    (actions : List Text)
    → HaveNoComma actions
    → split b',' (normalize_actions actions)
      ≡ (if null (add_new [] actions) then codes "connect" ∷ [] else add_new [] actions)
unfolding normalize_actions
split-normalize_actions actions h = elim (Bool-cases (null (add_new [] actions))) [
  | inl e ↦ rw e (unfold split in refl)
  | inr e ↦ rw e (split-join (add_new [] actions) e (add_new-Lacks [] actions h))
]
