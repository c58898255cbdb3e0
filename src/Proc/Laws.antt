-- ===== src/Proc/Laws.antt =====
-- The environment and the state of a process, as they are read from files under /proc.
use process_snapshot.Prelude.{
  ℕ, ◌≡◌, refl, Text, List, [], ◌∷◌, ◌++◌, append-nil, append_assoc, none, some, false, ◌==◌,
  ==_iff, All, ap, ◌∙◌, if_false, if_true,
}
use process_snapshot.Snapshot.{char_to_linux_state}
use process_snapshot.MemoryManager.Compare.{is_empty}
use process_snapshot.Proc.{
  split_nul, get_environment, or_here, after_last, state_char, state_of, get_process_state,
}

abbrev pub Lacks : ℕ → Text → Type 0
Lacks c = All (λ x. (x == c) ≡ false)

-- The file: each string with a byte 0 behind it.
abbrev pub terminated : List Text → Text
terminated [] = []
terminated (v ∷ vs) = v ++ 0 ∷ terminated vs

pub record IsVariable (v : Text) : Type 0 where
  pub filled : is_empty v ≡ false
  pub plain : Lacks 0 v

is_empty-grown : (s : Text) (c : ℕ) (t : Text) → is_empty (s ++ c ∷ t) ≡ false
is_empty-grown [] c t = refl
is_empty-grown (x ∷ s) c t = refl

split_nul-variable :
    (current v s : Text)
    → is_empty (current ++ v) ≡ false
    → Lacks 0 v
    → split_nul current (v ++ 0 ∷ s) ≡ (current ++ v) ∷ split_nul [] s
unfolding split_nul
split_nul-variable current [] s h plain = rw append-nil (if_false _ _ (rw append-nil at h))
split_nul-variable current (c ∷ v) s h plain =
    if_false _ _ plain.0
    ∙ split_nul-variable (current ++ c ∷ []) v s
        (ap (λ l. is_empty l) (append_assoc current (c ∷ []) v) ∙ is_empty-grown current c v)
        plain.1
    ∙ ap (λ l. l ∷ split_nul [] s) (append_assoc current (c ∷ []) v)

split_nul-terminated : (vs : List Text) → All IsVariable vs → split_nul [] (terminated vs) ≡ vs
split_nul-terminated [] h = unfold split_nul in refl
split_nul-terminated (v ∷ vs) h =
    split_nul-variable [] v (terminated vs) h.0.filled h.0.plain
    ∙ ap (λ l. v ∷ l) (split_nul-terminated vs h.1)

-- An environment of strings that are not empty, each with a byte 0 behind it, is read back.
pub get_environment-terminated :
    (vs : List Text) → All IsVariable vs → get_environment (terminated vs) ≡ vs
unfolding get_environment
get_environment-terminated vs h = split_nul-terminated vs h

after_last-lacking : (c : ℕ) (s : Text) → Lacks c s → after_last c s ≡ none
unfolding after_last or_here
after_last-lacking c [] h = refl
after_last-lacking c (x ∷ s) h =
    ap (λ t. or_here t (x == c) s) (after_last-lacking c s h.1) ∙ if_false _ _ h.0

after_last-append : (c : ℕ) (front s : Text) → Lacks c s → after_last c (front ++ c ∷ s) ≡ some s
unfolding after_last or_here
after_last-append c [] s h =
    ap (λ t. or_here t (c == c) s) (after_last-lacking c s h) ∙ if_true _ _ ((==_iff c c).1 refl)
after_last-append c (x ∷ front) s h =
    ap (λ t. or_here t (x == c) (front ++ c ∷ s)) (after_last-append c front s h)

-- Whatever the name of a command is, parentheses in it too: the state is that of the character two
-- places behind the parenthesis that ends it, if there is no other one behind.
pub get_process_state_lem :
    (front : Text) (blank c : ℕ) (rest : Text)
    → Lacks b')' (blank ∷ c ∷ rest)
    → get_process_state (front ++ b')' ∷ blank ∷ c ∷ rest) ≡ char_to_linux_state c
unfolding get_process_state state_char state_of
get_process_state_lem front blank c rest h =
    ap (λ t. state_of (state_char t)) (after_last-append b')' front (blank ∷ c ∷ rest) h)
