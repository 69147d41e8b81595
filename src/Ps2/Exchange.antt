-- ===== src/Ps2/Exchange.antt =====
-- Kernel/Drivers/Input/PS2.c: receiving a byte with a timeout, and sending one until the device does not
-- answer RESEND. Whether the controller sends a byte, and which bytes the interrupts push during a delay,
-- are parameters: two operations on the state of the outside.
use mug_os.Base.{ℕ, zero, suc, Bool, true, false, List, [], ◌∷◌, Option, none, some, ltb, ◌==◌}
use mug_os.Ps2.Decoder.{res_resend}
use mug_os.Ps2.Responses.{Responses, push_response_buffer, pop_response_buffer}

pub record Controller (World : Type 0) : Type 0 where
  pub send_byte_to_device : World → ℕ → ℕ → Bool × World
  pub delay : World → List ℕ × World

abbrev pub timeout : ℕ
timeout = 100000

-- The pushes of `initIRQ` during a delay.
unfoldable pub push_all : Responses → List ℕ → Responses
push_all r [] = r
push_all r (value ∷ values) = push_all (push_response_buffer r value) values

module _ {World : Type 0} (controller : Controller World) where
  -- The loop of `receiveByte`, with the passes that the counter has left.
  unfoldable pub await : ℕ → Responses × World → Responses × World
  await zero (r, w) = (r, w)
  await (suc passes) (r, w) = elim (ltb r.in_buffer 1) [
    | false ↦ (r, w)
    | true ↦ let (pushed, w') = controller.delay w in await passes (push_all r pushed, w')
  ]

  -- `receiveByte`.
  unfoldable pub receive_byte : Responses × World → Option ℕ × (Responses × World)
  receive_byte s =
      let (r, w) = await timeout s in let (value, r') = pop_response_buffer r in (value, (r', w))

  -- The loop of `sendByteToDeviceHandleResend`, with the attempts left and the last response.
  unfoldable pub send_attempts : ℕ → ℕ → ℕ → ℕ → Responses × World → ℕ × (Responses × World)
  send_attempts zero response device byte s = (response, s)
  send_attempts (suc attempts) response device byte (r, w) =
      let (success, w') = controller.send_byte_to_device w device byte in
      elim success [
        | false ↦ (res_resend, (r, w'))
        | true ↦
            let (received, s') = receive_byte (r, w') in
            elim received [
              | none ↦ (res_resend, s')
              | some value ↦ elim (value == res_resend) [
                | true ↦ send_attempts attempts value device byte s'
                | false ↦ (value, s')
              ]
            ]
      ]

  -- `sendByteToDeviceHandleResend`. Its first pass sets the response.
  unfoldable pub send_byte_to_device_handle_resend :
      ℕ → ℕ → Responses × World → ℕ × (Responses × World)
  send_byte_to_device_handle_resend device byte s = send_attempts 3 0 device byte s
