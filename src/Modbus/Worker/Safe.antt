-- ===== src/Modbus/Worker/Safe.antt =====
-- Which bytes make the server of src/modbus/modbus.c act.
use picore.Base.{
  ℕ, zero, suc, ◌+◌, ◌-◌, ◌<◌, [], ◌∷◌, ◌++◌, sym, ap, ◌∙◌, get_or, get_or-take, length,
  length-take, length-append, Bool, ◌==◌, ◌≤◌, ◌≡◌, ◌⊎◌, inl, inr, refl, arith, true, false, Option,
  none, some, List, if◌then◌else◌, Bool-cases, ==_iff, ltb, take,
}
use picore.Modbus.{Handler, Bus, buffer_size}
use picore.Modbus.Crc.{crc_init, check_state, crc_update, serialize, finalize}
use picore.Modbus.Crc.Check.{crc_update-check, crc_update-trailer}
use picore.Modbus.Spec.{sealed}
use mathlib.Core.Bool.{true≢false}
use picore.Modbus.Frame.{req_frame_len}
use picore.Modbus.Request.{req_handle}
use picore.Modbus.Worker.{checks, req_try}

req_frame_len_cases :
    (bytes : List ℕ) (size : ℕ) → (req_frame_len bytes size ≡ 0) ⊎ (7 ≤ req_frame_len bytes size)
unfolding req_frame_len
req_frame_len_cases bytes size = ground arith

-- A frame for which the server acts: all of it is there, and its checksum is right.
pub record IsRequest (bus : Bus) : Type 0 where
  pub announced : 7 ≤ req_frame_len bus.buffer bus.ptr
  pub complete : req_frame_len bus.buffer bus.ptr ≤ bus.ptr
  pub bounded : req_frame_len bus.buffer bus.ptr ≤ buffer_size
  pub checked :
      crc_update crc_init (take (req_frame_len bus.buffer bus.ptr) bus.buffer) ≡ check_state

-- A frame with a right checksum lies at the start of the buffer as a whole: `body` and behind it its
-- checksum, as many bytes as its beginning announces.
pub record Carries (bus : Bus) (body : List ℕ) : Type 0 where
  pub frame : take (length (sealed body)) bus.buffer ≡ sealed body
  pub announced : req_frame_len bus.buffer bus.ptr ≡ length (sealed body)
  pub complete : length (sealed body) ≤ bus.ptr
  pub bounded : length (sealed body) ≤ 256

last_two :
    (k : ℕ) (xs : List ℕ)
    → length xs ≡ k + 2
    → xs ≡ take k xs ++ get_or xs k 0 ∷ get_or xs (suc k) 0 ∷ []
last_two zero [] e = absurd (omega arith)
last_two zero (x ∷ []) e = absurd (omega arith)
last_two zero (x ∷ y ∷ []) e = refl
last_two zero (x ∷ y ∷ z ∷ xs) e = absurd (omega arith)
last_two (suc k) [] e = absurd (omega arith)
last_two (suc k) (x ∷ xs) e = ap (λ l. x ∷ l) (last_two k xs (omega arith))

-- What passes the checksum test is a frame with its checksum.
checked-sealed :
    (k : ℕ) (xs : List ℕ)
    → length xs ≡ k + 2
    → get_or xs k 0 < 256
    → get_or xs (suc k) 0 < 256
    → crc_update crc_init xs ≡ check_state
    → xs ≡ sealed (take k xs)
checked-sealed k xs size lo hi good =
    let split = last_two k xs size in
    let trailer =
      (crc_update-check (take k xs) (get_or xs k 0) (get_or xs (suc k) 0) lo hi).0
        (ap (crc_update crc_init) (sym split) ∙ good) in
    split ∙ ap (λ l. take k xs ++ l) trailer

length-sealed : (body : List ℕ) → length (sealed body) ≡ length body + 2
length-sealed body = length-append body (serialize (finalize (crc_update crc_init body)))

Carries-IsRequest : (bus : Bus) (body : List ℕ) → Carries bus body → IsRequest bus
Carries-IsRequest bus body c = record {
  announced =
      omega (arith, req_frame_len_cases bus.buffer bus.ptr, c.announced, length-sealed body);
  complete = omega (arith, c.announced, c.complete);
  bounded = omega (arith, c.announced, c.bounded);
  checked =
      ap (λ k. crc_update crc_init (take k bus.buffer)) c.announced
      ∙ ap (crc_update crc_init) c.frame
      ∙ crc_update-trailer body;
}

IsRequest-Carries :
    (bus : Bus)
    → length bus.buffer ≡ 256
    → ((i : ℕ) → get_or bus.buffer i 0 < 256)
    → IsRequest bus
    → (body : List ℕ) × Carries bus body
IsRequest-Carries bus size bytes q =
    let n = req_frame_len bus.buffer bus.ptr in
    let k = n - 2 in
    let xs = take n bus.buffer in
    let all : length xs ≡ k + 2 =
      length-take n bus.buffer ∙ omega (arith, size, q.bounded, q.announced) in
    let at : (i : ℕ) → i < n → get_or xs i 0 < 256 =
      λ i lt. omega (arith, get_or-take n bus.buffer i 0 lt, bytes i) in
    let is =
      checked-sealed k xs all (at k (omega (arith, q.announced)))
        (at (suc k) (omega (arith, q.announced))) q.checked in
    let whole : length (sealed (take k xs)) ≡ n =
      ap length (sym is) ∙ all ∙ omega (arith, q.announced) in
    (
      take k xs,
      record {
        frame = ap (λ j. take j bus.buffer) whole ∙ is;
        announced = sym whole;
        complete = omega (arith, whole, q.complete);
        bounded = omega (arith, whole, q.bounded);
      },
    )

module _ {W : Type 0} (exec : Option ℕ → W → W) (exec_in_ms : ℕ → ℕ → W → W) (handler : Handler W)
    (fuel : ℕ) (bus : Bus) (w : W) where
  abbrev tried : Option (Bool × Bus × W)
  tried = req_try exec exec_in_ms handler fuel bus w

  abbrev served : ℕ → Option (Bool × Bus × W)
  served n = elim (req_handle exec handler fuel bus n w) [
    | none ↦ none
    | some (bus', w') ↦ some (true, bus', w')
  ]

  abbrev passed_over : Option (Bool × Bus × W)
  passed_over =
      if ltb buffer_size (req_frame_len bus.buffer bus.ptr)
      then some (true, record bus { ptr = 0 }, w)
      else some (false, bus, w)

  req_try-cases :
      IsRequest bus × (tried ≡ served (req_frame_len bus.buffer bus.ptr))
      ⊎ (¬ IsRequest bus) × (tried ≡ passed_over)
  unfolding req_try
  req_try-cases =
      let n = req_frame_len bus.buffer bus.ptr in
      elim (Bool-cases (n == 0)) [
        | inl none_left ↦
            let small : ltb buffer_size n ≡ false = ground (arith, none_left) in
            inr (λ q. ground (arith, none_left, q.announced), rw (none_left, small) refl)
        | inr some_len ↦ elim (Bool-cases (ltb buffer_size n)) [
          | inl large ↦ inr (λ q. ground (arith, large, q.bounded), rw (some_len, large) refl)
          | inr fits ↦ elim (Bool-cases (ltb bus.ptr n)) [
            | inl short ↦
                inr (λ q. ground (arith, short, q.complete), rw (some_len, fits, short) refl)
            | inr whole ↦ elim (Bool-cases (checks bus n)) [
              | inl good ↦ inl (
                record {
                  announced = ground (arith, some_len, req_frame_len_cases bus.buffer bus.ptr);
                  complete = ground (arith, whole);
                  bounded = ground (arith, fits);
                  checked = (==_iff _ _).0 good;
                },
                rw (some_len, fits, whole, good) refl,
              )
              | inr bad ↦ inr (
                λ q. true≢false (sym ((==_iff _ _).1 q.checked) ∙ bad),
                rw (some_len, fits, whole, bad) refl,
              )
            ]
          ]
        ]
      ]

  -- In a buffer of 256 entries that are bytes: if some frame with its checksum lies at the buffer's start,
  -- complete and within it, and as long as it announces, `modbus_req_try` serves exactly this frame with
  -- `bus_req_handle`; and if there is no such frame, it calls no handler, sends nothing and wakes no
  -- task, and drops the bytes exactly where the size that they announce is beyond the buffer.
  pub req_try-Carries :
      length bus.buffer ≡ 256
      → ((i : ℕ) → get_or bus.buffer i 0 < 256)
      → ((body : List ℕ) × Carries bus body × (tried ≡ served (length (sealed body))))
        ⊎ ((body : List ℕ) → ¬ Carries bus body) × (tried ≡ passed_over)
  req_try-Carries size bytes = elim req_try-cases [
    | inl (q, e) ↦
        let (body, c) = IsRequest-Carries bus size bytes q in
        inl (body, c, e ∙ ap served c.announced)
    | inr (refuses, e) ↦ inr (λ body c. refuses (Carries-IsRequest bus body c), e)
  ]
