-- ===== src/Modbus/Request/Reply.antt =====
-- The buffer of a reply under way in src/modbus/modbus.c, and its checksum at the label `respond`.
use picore.Base.{
  ℕ, suc, ◌+◌, ◌%◌, ◌≤◌, ◌<◌, ◌≡◌, refl, ap, ◌∙◌, arith, false, ltb, some, List, [], ◌∷◌, ◌++◌,
  length, take, get_or, set, blit, length-set, get_or-set_ne, get_or-set_self, take-set,
  append_assoc, bit_or, u8, u16,
}
use picore.Fifo.{Fifo}
use picore.Modbus.{ModbusError, code, Bus}
use picore.Modbus.Crc.{crc_init, check_state, crc_update, serialize}
use picore.Modbus.Crc.Check.{crc_update-trailer}
use picore.Modbus.Request.{report, respond}

-- A reply that begins with the bytes `a` and `f` and leaves room for the checksum, of a bus that sends
-- to the FIFO `t`.
pub record IsReply (t : Fifo) (a f : ℕ) (bus : Bus) : Type 0 where
  pub size : length bus.buffer ≡ 256
  pub first : get_or bus.buffer 0 0 ≡ a
  pub second : get_or bus.buffer 1 0 ≡ f
  pub from : 2 ≤ bus.ptr
  pub fits : bus.ptr ≤ 254
  pub sends_to : bus.tx ≡ t

pub store-IsReply :
    (t : Fifo) (a f : ℕ) (bus : Bus) (i v p : ℕ)
    → IsReply t a f bus
    → 2 ≤ i
    → 2 ≤ p
    → p ≤ 254
    → IsReply t a f (record bus { buffer = set bus.buffer i v; ptr = p })
store-IsReply t a f bus i v p r lo q0 q1 = record {
  size = length-set bus.buffer i v ∙ r.size;
  first = get_or-set_ne bus.buffer {i = i} {j = 0} v 0 (λ e. omega arith) ∙ r.first;
  second = get_or-set_ne bus.buffer {i = i} {j = 1} v 0 (λ e. omega arith) ∙ r.second;
  from = q0;
  fits = q1;
  sends_to = r.sends_to;
}

pub blit-IsReply :
    (t : Fifo) (a f : ℕ) (bus : Bus) (i : ℕ) (vs : List ℕ)
    → IsReply t a f bus
    → 2 ≤ i
    → IsReply t a f (record bus { buffer = blit bus.buffer i vs })
blit-IsReply t a f bus i [] r lo = r
blit-IsReply t a f bus i (v ∷ vs) r lo =
    blit-IsReply t a f (record bus { buffer = set bus.buffer i v }) (i + 1) vs
      (store-IsReply t a f bus i v bus.ptr r lo r.from r.fits) (omega arith)

-- The label `error` marks the function and keeps the address.
pub report-IsReply :
    (err : ModbusError) (t : Fifo) (a f : ℕ) (bus : Bus)
    → IsReply t a f bus
    → IsReply t a (u8 (bit_or f 0x80)) (report err bus)
unfolding report
report-IsReply err t a f bus r =
    let v = u8 (bit_or (get_or bus.buffer 1 0) 0x80) in
    let b1 = set bus.buffer 1 v in
    record {
      size = length-set b1 2 (u8 (code err)) ∙ length-set bus.buffer 1 v ∙ r.size;
      first =
          get_or-set_ne b1 {i = 2} {j = 0} (u8 (code err)) 0 (λ e. omega arith)
          ∙ get_or-set_ne bus.buffer {i = 1} {j = 0} v 0 (λ e. omega arith)
          ∙ r.first;
      second =
          get_or-set_ne b1 {i = 2} {j = 1} (u8 (code err)) 0 (λ e. omega arith)
          ∙ get_or-set_self bus.buffer 1 v 0 (omega (arith, r.size))
          ∙ ap (λ k. u8 (bit_or k 0x80)) r.second;
      from = omega arith;
      fits = omega arith;
      sends_to = r.sends_to;
    }

pub trailer :
    (buf : List ℕ) (p lo hi : ℕ)
    → p + 1 < length buf
    → take (p + 2) (blit buf p (lo ∷ hi ∷ [])) ≡ take p buf ++ lo ∷ hi ∷ []
trailer buf p lo hi fits =
    let one : p + 1 ≡ suc p = omega arith in
    let two : p + 2 ≡ suc (p + 1) = omega arith in
    ap (λ n. take n (blit buf p (lo ∷ hi ∷ []))) two
    ∙ take-set (p + 1) (set buf p lo) hi (omega (arith, length-set buf p lo))
    ∙ ap (λ n. take n (set buf p lo) ++ hi ∷ []) one
    ∙ ap (λ l. l ++ hi ∷ []) (take-set p buf lo (omega arith))
    ∙ append_assoc (take p buf) (lo ∷ []) (hi ∷ [])

-- What the label `respond` makes of such a reply.
pub record IsAnswer (a f : ℕ) (bus : Bus) : Type 0 where
  pub size : length bus.buffer ≡ 256
  pub from_start : bus.ptr ≡ 0
  pub first : get_or bus.buffer 0 0 ≡ a
  pub second : get_or bus.buffer 1 0 ≡ f
  pub at_least : 4 ≤ bus.rsp_size
  pub at_most : bus.rsp_size ≤ 256
  pub checked : crc_update crc_init (take bus.rsp_size bus.buffer) ≡ check_state

pub respond-IsAnswer :
    (t : Fifo) (a f : ℕ) (bus : Bus)
    → IsReply t a f bus
    → (bus' : Bus) × (respond bus ≡ some bus') × IsAnswer a f bus'
unfolding respond
respond-IsAnswer t a f bus r =
    let crc = serialize (crc_update crc_init (take bus.ptr bus.buffer)) in
    let filled = blit-IsReply t a f bus bus.ptr crc r r.from in
    let room : ltb 256 (bus.ptr + 2) ≡ false = ground (arith, r.fits) in
    let small : (bus.ptr + 2) % 65536 ≡ bus.ptr + 2 = omega (arith, r.fits) in
    (
      record bus { buffer = blit bus.buffer bus.ptr crc; rsp_size = u16 (bus.ptr + 2); ptr = 0 },
      rw room refl,
      record {
        size = filled.size;
        from_start = refl;
        first = filled.first;
        second = filled.second;
        at_least = omega (arith, r.from, r.fits);
        at_most = omega (arith, r.from, r.fits);
        checked =
            ap (λ n. crc_update crc_init (take n (blit bus.buffer bus.ptr crc))) small
            ∙ ap (crc_update crc_init)
                (trailer bus.buffer bus.ptr _ _ (omega (arith, r.size, r.fits)))
            ∙ crc_update-trailer (take bus.ptr bus.buffer);
      },
    )
