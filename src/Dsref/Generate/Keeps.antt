-- ===== src/Dsref/Generate/Keeps.antt =====
-- What every round of the state machine keeps.
use qri.Base.{
  ℕ, ◌≡◌, refl, ◌⊎◌, inl, inr, [], ◌∷◌, Bool, true, false, Str, ltb, ◌==◌, if◌then◌else◌, All,
}
use qri.Dsref.Name.{is_lower, is_upper, is_digit}
use qri.Dsref.Generate.{
  State, outside, lower_word, first_upper, caps_word, number, punc, exit, Machine, flush, start,
  is_dash, is_punc, step_outside, step_word, split_end, split_caps, step_punc, step_in, step, steps,
}

-- The runes that the machine does not skip.
abbrev pub IsRead : ℕ → Type 0
IsRead c =
    (is_lower c ≡ true)
    ⊎ (is_upper c ≡ true)
    ⊎ (is_digit c ≡ true)
    ⊎ (is_punc c ≡ true)
    ⊎ (is_dash c ≡ true)

-- A property of the machine that is kept where it writes runes of the class `A`.
pub record IsKept (A : ℕ → Type 0) (P : Machine → Type 0) : Type 0 where
  pub underscore : A b'_'
  pub dash : A b'-'
  pub started : (s : State) (c : ℕ) (m : Machine) → A c → P m → P (start s c m)
  pub flushed : (s : State) (c : ℕ) (m : Machine) → A c → P m → P (flush s c m)
  pub cut :
      (g : ℕ) (gs : Str) (m : Machine)
      → m.next ≡ g ∷ gs
      → P m
      → A (split_end g gs).1 × P (record m { next = (split_end g gs).0 })

module _ (A : ℕ → Type 0) (P : Machine → Type 0) (kept : IsKept A P) where
  if-keeps : (b : Bool) (m k : Machine) → (b ≡ true → P m) → P k → P (if b then m else k)
  if-keeps true m k w v = w refl
  if-keeps false m k w v = v

  module _ (c : ℕ) (a : IsRead c → A c) (m : Machine) (w : P m) where
    flushing : (s : State) → IsRead c → P (flush s c m)
    flushing s r = kept.flushed s c m (a r) w

    starting : (s : State) → IsRead c → P (start s c m)
    starting s r = kept.started s c m (a r) w

    step_outside-keeps : P (step_outside c m)
    unfolding step_outside
    step_outside-keeps =
        if-keeps (c == b' ') _ _ (λ e. kept.started m.state b'_' m kept.underscore w)
          (if-keeps (is_lower c) _ _ (λ e. starting lower_word (inl e))
            (if-keeps (is_upper c) _ _ (λ e. starting first_upper (inr (inl e)))
              (if-keeps (is_digit c) _ _ (λ e. starting number (inr (inr (inl e))))
                (if-keeps (is_punc c) _ _ (λ e. starting punc (inr (inr (inr (inl e)))))
                  (if-keeps (is_dash c) _ _ (λ e. kept.started m.state b'-' m kept.dash w) w)))))

    step_word-keeps :
        (l u d : Machine)
        → (IsRead c → P l)
        → (IsRead c → P u)
        → (IsRead c → P d)
        → P (step_word l u d c m)
    unfolding step_word
    step_word-keeps l u d wl wu wd =
        if-keeps (c == b' ') _ _ (λ e. kept.flushed outside b'_' m kept.underscore w)
          (if-keeps (is_lower c) _ _ (λ e. wl (inl e))
            (if-keeps (is_upper c) _ _ (λ e. wu (inr (inl e)))
              (if-keeps (is_digit c) _ _ (λ e. wd (inr (inr (inl e))))
                (if-keeps (is_punc c) _ _ (λ e. kept.flushed punc b'-' m kept.dash w)
                  (if-keeps (is_dash c) _ _ (λ e. flushing outside (inr (inr (inr (inr e))))) w)))))

    step_punc-keeps : P (step_punc c m)
    unfolding step_punc
    step_punc-keeps =
        if-keeps (c == b' ') _ _ (λ e. w)
          (if-keeps (is_lower c) _ _ (λ e. flushing lower_word (inl e))
            (if-keeps (is_upper c) _ _ (λ e. flushing first_upper (inr (inl e)))
              (if-keeps (is_digit c) _ _ (λ e. flushing number (inr (inr (inl e))))
                (if-keeps (is_punc c) _ _ (λ e. kept.started m.state b'-' m kept.dash w)
                  (if-keeps (is_dash c) _ _ (λ e. flushing outside (inr (inr (inr (inr e))))) w)))))

    split_caps-keeps : (next : Str) → m.next ≡ next → IsRead c → P (split_caps c m next)
    unfolding split_caps
    split_caps-keeps [] e r = w
    split_caps-keeps (g ∷ gs) e r =
        let (last, before) = kept.cut g gs m e w in
        let k = flush lower_word (split_end g gs).1 (record m { next = (split_end g gs).0 }) in
        kept.started k.state c k (a r) (kept.flushed lower_word _ _ last before)

    step_in-keeps : (s : State) → P (step_in s c m)
    unfolding step_in
    step_in-keeps outside = step_outside-keeps
    step_in-keeps lower_word =
        step_word-keeps _ _ _ (starting m.state) (flushing first_upper) (flushing number)
    step_in-keeps first_upper =
        step_word-keeps _ _ _ (starting lower_word) (starting caps_word) (flushing number)
    step_in-keeps caps_word =
        step_word-keeps _ _ _ (split_caps-keeps m.next refl) (starting m.state) (flushing number)
    step_in-keeps number =
        step_word-keeps _ _ _ (flushing lower_word) (flushing first_upper) (starting m.state)
    step_in-keeps punc = step_punc-keeps
    step_in-keeps exit = w

    step-keeps : P (step c m)
    unfolding step
    step-keeps = if-keeps (ltb 127 c) m (step_in m.state c m) (λ e. w) (step_in-keeps m.state)

  pub steps-keeps : (cs : Str) (m : Machine) → All (λ c. IsRead c → A c) cs → P m → P (steps cs m)
  unfolding steps
  steps-keeps [] m a w = w
  steps-keeps (c ∷ cs) m a w = steps-keeps cs (step c m) a.1 (step-keeps c a.0 m w)
