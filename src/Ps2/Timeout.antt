-- ===== src/Ps2/Timeout.antt =====
-- A byte that comes within the timeout is received, and a byte is sent at most three times.
use mug_os.Base.{
  ℕ, zero, suc, ◌+◌, ◌<◌, ◌≤◌, ◌≡◌, inl, inr, refl, ap, ◌∙◌, arith, Bool, true, false, List, [],
  ◌∷◌, ◌++◌, Option, none, some, ltb, ◌==◌, if◌then◌else◌, Bool-cases,
}
use mug_os.Ps2.Decoder.{res_resend}
use mug_os.Ps2.Responses.{
  Responses, push_response_buffer, pop_response_buffer, IsValid, contents, contents_of, uncons,
  push_response_buffer-contents, pop_response_buffer-contents,
}
use mug_os.Ps2.Exchange.{
  Controller, timeout, push_all, await, receive_byte, send_attempts,
  send_byte_to_device_handle_resend,
}

first_of : Responses → Option ℕ
first_of r = (uncons (contents r)).0

-- A push keeps the first byte of the buffer, if there is one.
push-first :
    (r : Responses) (b value : ℕ)
    → IsValid r
    → first_of r ≡ some b
    → first_of (push_response_buffer r value) ≡ some b
unfolding first_of
push-first r b value valid h =
    ap (λ l. (uncons l).0) (push_response_buffer-contents r value valid).0
    ∙ by_case (r.in_buffer == 5) (contents r) h
  where
    by_case :
        (full : Bool) (l : List ℕ)
        → (uncons l).0 ≡ some b
        → (uncons (if full then l else l ++ value ∷ [])).0 ≡ some b
    by_case true l h = h
    by_case false [] h = absurd (ground arith)
    by_case false (x ∷ l) h = h

push_all-first :
    (r : Responses) (b : ℕ) (values : List ℕ)
    → IsValid r
    → first_of r ≡ some b
    → (first_of (push_all r values) ≡ some b) × IsValid (push_all r values)
unfolding push_all
push_all-first r b [] valid h = (h, valid)
push_all-first r b (value ∷ values) valid h =
    push_all-first (push_response_buffer r value) b values
      (push_response_buffer-contents r value valid).1 (push-first r b value valid h)

-- The first byte pushed into an empty buffer is first in it.
push_all-empty :
    (r : Responses) (b : ℕ) (values : List ℕ)
    → IsValid r
    → r.in_buffer ≡ 0
    → (first_of (push_all r (b ∷ values)) ≡ some b) × IsValid (push_all r (b ∷ values))
unfolding push_all first_of contents_of
push_all-empty r b values valid empty =
    push_all-first (push_response_buffer r b) b values (push_response_buffer-contents r b valid).1
      (ap (λ l. (uncons l).0) (push_response_buffer-contents r b valid).0 ∙ rw empty refl)

not_empty : (r : Responses) (b : ℕ) → first_of r ≡ some b → ltb r.in_buffer 1 ≡ false
unfolding first_of contents_of
not_empty r b h = by_count r.in_buffer r.buffer h
  where
    by_count :
        (n : ℕ) (buffer : List ℕ) → (uncons (contents_of n buffer)).0 ≡ some b → ltb n 1 ≡ false
    by_count zero buffer h = absurd (ground arith)
    by_count (suc n) buffer h = ground arith

pop-first :
    (r : Responses) (b : ℕ) → IsValid r → first_of r ≡ some b → (pop_response_buffer r).0 ≡ some b
unfolding first_of
pop-first r b valid h = (pop_response_buffer-contents r valid).0 ∙ h

module _ {World : Type 0} (controller : Controller World) where
  -- The outside after a number of delays, and what is pushed in the next one.
  unfoldable pub elapse : ℕ → World → World
  elapse zero w = w
  elapse (suc n) w = elapse n (controller.delay w).1

  abbrev pub pushed_after : ℕ → World → List ℕ
  pushed_after n w = (controller.delay (elapse n w)).0

  await_filled :
      (passes : ℕ) (r : Responses) (w : World) (b : ℕ)
      → first_of r ≡ some b
      → await controller passes (r, w) ≡ (r, w)
  unfolding await
  await_filled zero r w b h = refl
  await_filled (suc passes) r w b h = rw (not_empty r b h, await) refl

  await-first :
      (passes k : ℕ) (r : Responses) (w : World) (b : ℕ) (bs : List ℕ)
      → IsValid r
      → r.in_buffer ≡ 0
      → ((i : ℕ) → i < k → pushed_after i w ≡ [])
      → pushed_after k w ≡ b ∷ bs
      → k < passes
      → (first_of (await controller passes (r, w)).0 ≡ some b)
        × IsValid (await controller passes (r, w)).0
  unfolding elapse await push_all
  await-first zero k r w b bs valid empty silent comes soon = absurd (omega arith)
  await-first (suc passes) zero r w b bs valid empty silent comes soon =
      rw (empty, await)
        (rw (comes, await)
          (rw
            (await_filled passes (push_all r (b ∷ bs)) (controller.delay w).1 b
              (push_all-empty r b bs valid empty).0)
            (push_all-empty r b bs valid empty)))
  await-first (suc passes) (suc k) r w b bs valid empty silent comes soon =
      rw (empty, await)
        (rw (silent zero (omega arith), await)
          (await-first passes k r (controller.delay w).1 b bs valid empty
            (λ i h. silent (suc i) (omega arith)) comes (omega arith)))

  -- With a valid and empty buffer, if nothing is pushed in the first k delays and bytes are in the next
  -- one, with k below the timeout of 100,000 delays, then `receiveByte` returns the first of these bytes.
  pub receive_byte-in_time :
      (k : ℕ) (r : Responses) (w : World) (b : ℕ) (bs : List ℕ)
      → IsValid r
      → r.in_buffer ≡ 0
      → ((i : ℕ) → i < k → pushed_after i w ≡ [])
      → pushed_after k w ≡ b ∷ bs
      → k < timeout
      → (receive_byte controller (r, w)).0 ≡ some b
  unfolding receive_byte
  receive_byte-in_time k r w b bs valid empty silent comes soon =
      let (filled, still) = await-first timeout k r w b bs valid empty silent comes soon in
      pop-first (await controller timeout (r, w)).0 b still filled

-- A controller that counts the bytes that are sent with it.
abbrev pub counting : {World : Type 0} → Controller World → Controller (ℕ × World)
counting controller = record {
  send_byte_to_device = λ s device byte.
      let (success, w') = controller.send_byte_to_device s.1 device byte in
      (success, (s.0 + 1, w'));
  delay = λ s. let (pushed, w') = controller.delay s.1 in (pushed, (s.0, w'));
}

module _ {World : Type 0} (controller : Controller World) where
  await-count :
      (passes : ℕ) (r : Responses) (s : ℕ × World)
      → (await (counting controller) passes (r, s)).1.0 ≡ s.0
  unfolding await
  await-count zero r s = refl
  await-count (suc passes) r s = elim (Bool-cases (ltb r.in_buffer 1)) [
    | inl empty ↦
        rw (empty, await)
          (await-count passes (push_all r (controller.delay s.1).0) (s.0, (controller.delay s.1).1))
    | inr filled ↦ rw (filled, await) refl
  ]

  receive_byte-count :
      (r : Responses) (s : ℕ × World) → (receive_byte (counting controller) (r, s)).1.1.0 ≡ s.0
  unfolding receive_byte
  receive_byte-count r s = await-count timeout r s

  send_attempts-count :
      (attempts response device byte : ℕ) (r : Responses) (s : ℕ × World)
      → (send_attempts (counting controller) attempts response device byte (r, s)).1.1.0
        ≤ s.0 + attempts
  unfolding send_attempts
  send_attempts-count zero response device byte r s = omega arith
  send_attempts-count (suc attempts) response device byte r s =
      elim (Bool-cases (controller.send_byte_to_device s.1 device byte).0) [
        | inr failed ↦ rw (failed, send_attempts) (omega arith)
        | inl sent ↦
            rw (sent, send_attempts)
              (answered (λ value. send_attempts-count attempts value device byte after.0 after.1)
                (receive_byte (counting controller) (r, next)).0)
      ]
    where
      next : ℕ × World
      next = (s.0 + 1, (controller.send_byte_to_device s.1 device byte).1)

      after : Responses × (ℕ × World)
      after = (receive_byte (counting controller) (r, next)).1

      answered :
          ((value : ℕ)
            → (send_attempts (counting controller) attempts value device byte after).1.1.0
              ≤ after.1.0 + attempts)
          → (received : Option ℕ)
          → (elim received as (λ o. ℕ × (Responses × (ℕ × World))) [
            | none ↦ (res_resend, after)
            | some value ↦ elim (value == res_resend) [
              | true ↦ send_attempts (counting controller) attempts value device byte after
              | false ↦ (value, after)
            ]
          ]).1.1.0
            ≤ s.0 + suc attempts
      answered again none = omega (arith, receive_byte-count r next)
      answered again (some value) = elim (Bool-cases (value == res_resend)) [
        | inl resend ↦ rw resend (omega (arith, receive_byte-count r next, again value))
        | inr other ↦ rw other (omega (arith, receive_byte-count r next))
      ]

  -- `sendByteToDeviceHandleResend` returns, and sends its byte at most three times, whatever the controller
  -- and the device do.
  pub send_byte_to_device_handle_resend-count :
      (device byte : ℕ) (r : Responses) (w : World)
      → (send_byte_to_device_handle_resend (counting controller) device byte (r, (0, w))).1.1.0 ≤ 3
  unfolding send_byte_to_device_handle_resend
  send_byte_to_device_handle_resend-count device byte r w =
      send_attempts-count 3 0 device byte r (0, w)
