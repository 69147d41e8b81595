-- ===== src/Keyboard/Callbacks.antt =====
-- The table of callbacks, and who is called.
use mug_os.Base.{
  ℕ, ◌≡◌, ◌≢◌, refl, ap, ap₂, arith, Bool, true, false, List, [], ◌∷◌, ◌==◌, if◌then◌else◌,
  Bool-cases, inl, inr,
}
use mug_os.Keyboard.{
  Call, KeypressMode, execute_callbacks, register_key_callback, unregister_key_callback,
}

-- Whether a callback is in the table.
unfoldable pub registered : List ℕ → ℕ → Bool
registered [] callback = false
registered (c ∷ callbacks) callback = if c == callback then true else registered callbacks callback

unregister_absent :
    (callbacks : List ℕ) (callback : ℕ)
    → registered callbacks callback ≡ false
    → unregister_key_callback callbacks callback ≡ callbacks
unfolding registered unregister_key_callback
unregister_absent [] cb none = refl
unregister_absent (c ∷ callbacks) cb none =
    let other : (c == cb) ≡ false = ground arith in
    rw (other, unregister_key_callback)
      (ap (λ xs. c ∷ xs) (unregister_absent callbacks cb (ground arith)))

-- For a callback that is not NULL and not in the table yet: `Keyboard_registerKeyCallback` succeeds
-- exactly if there is an empty place, and exactly then the callback is in the table afterwards; a table
-- without an empty place stays as it is; and `Keyboard_unregisterKeyCallback` restores the table.
pub unregister_key_callback_undoes :
    (callbacks : List ℕ) (callback : ℕ)
    → callback ≢ 0
    → registered callbacks callback ≡ false
    → let (done, callbacks') = register_key_callback callbacks callback in
      (done ≡ registered callbacks 0)
      × (registered callbacks' callback ≡ done)
      × (done ≡ false → callbacks' ≡ callbacks)
      × (unregister_key_callback callbacks' callback ≡ callbacks)
unfolding registered register_key_callback unregister_key_callback
unregister_key_callback_undoes [] cb ne none = (refl, refl, (λ _. refl), refl)
unregister_key_callback_undoes (c ∷ callbacks) cb ne none =
    let other : (c == cb) ≡ false = ground arith in
    let absent : registered callbacks cb ≡ false = ground arith in
    elim (Bool-cases (c == 0)) [
      | inl empty ↦
          let self : (cb == cb) ≡ true = ground arith in
          let is_null : 0 ≡ c = ground arith in
          rw (empty, registered, register_key_callback, unregister_key_callback, self)
            (
              refl,
              refl,
              (λ e. absurd (ground arith)),
              ap₂ (λ x xs. x ∷ xs) is_null (unregister_absent callbacks cb absent),
            )
      | inr used ↦
          let (same, there, full, back) = unregister_key_callback_undoes callbacks cb ne absent in
          rw (used, registered, register_key_callback, unregister_key_callback, other)
            (same, there, (λ e. ap (λ xs. c ∷ xs) (full e)), ap (λ xs. c ∷ xs) back)
    ]

-- The callbacks that an event calls, in order.
unfoldable pub called : List Call → List ℕ
called [] = []
called (c ∷ calls) = c.callback ∷ called calls

unfoldable pub occupied : List ℕ → List ℕ
occupied [] = []
occupied (c ∷ callbacks) = if c == 0 then occupied callbacks else c ∷ occupied callbacks

-- `executeCallbacks` calls every callback of the table once, in the order of their places.
pub called-execute_callbacks :
    (callbacks : List ℕ) (k c : ℕ) (mode : KeypressMode) (modifiers : ℕ)
    → called (execute_callbacks callbacks k c mode modifiers) ≡ occupied callbacks
unfolding called occupied execute_callbacks
called-execute_callbacks [] k c mode m = refl
called-execute_callbacks (cb ∷ callbacks) k c mode m = elim (Bool-cases (cb == 0)) [
  | inl empty ↦ rw (empty, execute_callbacks) (called-execute_callbacks callbacks k c mode m)
  | inr used ↦
      rw (used, execute_callbacks)
        (ap (λ xs. cb ∷ xs) (called-execute_callbacks callbacks k c mode m))
]
