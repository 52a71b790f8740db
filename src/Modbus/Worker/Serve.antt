-- ===== src/Modbus/Worker/Serve.antt =====
-- A turn of the worker of src/modbus/modbus.c: what has arrived is gathered, and a request that is
-- complete is served and its reply sent.
use picore.Base.{
  ℕ, zero, suc, ◌+◌, ◌-◌, ◌<◌, ◌≤◌, ◌≡◌, ◌≢◌, ◌==◌, refl, sym, subst, ap, ap₂, ◌∙◌, arith, Bool,
  true, false, inl, inr, Bool-cases, ==_iff, Option, none, some, List, [], ◌++◌, if◌then◌else◌,
  get_or, length, take, get_or-take, length-take, ltb,
}
use picore.Fifo.Inv.{IsValid}
use picore.Fifo.Contents.{contents}
use picore.Modbus.{Bus, Handler}
use picore.Modbus.Crc.{crc_init, crc_update, check_state}
use picore.Modbus.Frame.{req_frame_len}
use picore.Modbus.Request.{req_handle, read_device_identification}
use picore.Modbus.Request.Values.{written}
use picore.Modbus.Request.Transmit.{Sending}
use picore.Modbus.Request.Delivered.{Line, Reach, answer_frame, req_handle-Sending}
use picore.Modbus.Worker.{checks, req_try, frame_try, rsp_try, timeout_ms, on_work}
use picore.Modbus.Worker.Safe.{IsRequest}
use picore.Modbus.Worker.Gather.{gather}

-- The announced size depends on what has arrived alone.
req_frame_len-take : (buf : List ℕ) (n : ℕ) → req_frame_len buf n ≡ req_frame_len (take n buf) n
unfolding req_frame_len
req_frame_len-take buf zero = refl
req_frame_len-take buf (suc zero) = refl
req_frame_len-take buf (suc (suc n)) =
    let func : get_or (take (suc (suc n)) buf) 1 0 ≡ get_or buf 1 0 =
      get_or-take (suc (suc n)) buf 1 0 (omega arith) in
    elim (Bool-cases (ltb (suc (suc n)) 7)) [
      | inl short ↦ rw (func, short) refl
      | inr long ↦
          let count : get_or (take (suc (suc n)) buf) 6 0 ≡ get_or buf 6 0 =
            get_or-take (suc (suc n)) buf 6 0 (ground (arith, long)) in
          rw (func, count) refl
    ]

module _ {W : Type 0} (exec : Option ℕ → W → W) (exec_in_ms : ℕ → ℕ → W → W) (handler : Handler W)
    (fuel : ℕ) where
  abbrev served : Option (Bus × W) → Option (Bool × Bus × W)
  served result = elim result [ none ↦ none | some (bus', w') ↦ some (true, bus', w') ]

  req_try-served :
      (bus : Bus) (w : W)
      → IsRequest bus
      → req_try exec exec_in_ms handler fuel bus w
        ≡ served (req_handle exec handler fuel bus (req_frame_len bus.buffer bus.ptr) w)
  unfolding req_try
  req_try-served bus w q =
      let n = req_frame_len bus.buffer bus.ptr in
      let some_len : (n == 0) ≡ false = ground (arith, q.announced) in
      let fits : ltb 256 n ≡ false = ground (arith, q.bounded) in
      let whole : ltb bus.ptr n ≡ false = ground (arith, q.complete) in
      let good : checks bus n ≡ true = (==_iff _ _).1 q.checked in
      rw (some_len, fits, whole, good) refl

  abbrev tried : Option (Bool × Bus × W) → Option (Bus × W)
  tried result = elim result [
    | none ↦ none
    | some (done, bus1, w1) ↦ if done then some (bus1, w1) else (elim (rsp_try bus1) [
      | none ↦ none
      | some (done', bus2) ↦
          if done'
          then some (bus2, w1)
          else (some (bus2, if bus2.ptr == 0 then w1 else exec_in_ms bus2.clear timeout_ms w1))
    ])
  ]

  -- A request that is there as a whole is served.
  frame_try-served :
      (bus : Bus) (w : W) {bus' : Bus} {w' : W}
      → IsRequest bus
      → req_handle exec handler fuel bus (req_frame_len bus.buffer bus.ptr) w ≡ some (bus', w')
      → frame_try exec exec_in_ms handler fuel bus w ≡ some (bus', w')
  unfolding frame_try
  frame_try-served bus w q e = ap tried (req_try-served bus w q ∙ ap served e)

  -- The bytes of a buffer that make one request.
  gathered-IsRequest :
      (bus : Bus) (request : List ℕ)
      → written bus ≡ request
      → bus.ptr ≡ length request
      → length bus.buffer ≡ 256
      → req_frame_len request (length request) ≡ length request
      → 7 ≤ length request
      → crc_update crc_init request ≡ check_state
      → (req_frame_len bus.buffer bus.ptr ≡ length request) × IsRequest bus
  gathered-IsRequest bus request is ptr size announced long good =
      let n : req_frame_len bus.buffer bus.ptr ≡ length request =
        req_frame_len-take bus.buffer bus.ptr ∙ ap₂ req_frame_len is ptr ∙ announced in
      let at_most : length request ≤ 256 =
        omega (arith, ap length (sym is), length-take bus.ptr bus.buffer, size) in
      (
        n,
        record {
          announced = omega (arith, n);
          complete = omega (arith, n);
          bounded = omega (arith, n);
          checked =
              ap (λ k. crc_update crc_init (take k bus.buffer)) (n ∙ sym ptr)
              ∙ ap (crc_update crc_init) is
              ∙ good;
        },
      )

  module _ (outer : ℕ → ℕ) (more : ℕ) (bus : Bus) (w : W) (valid : IsValid bus.rx 0 0)
      (size : length bus.buffer ≡ 256) (idle : bus.rsp_size ≡ 0) (once : outer 0 ≡ 0)
      (in_piece : bus.rx.used ≤ bus.rx.size - bus.rx.rptr) (room : bus.ptr + bus.rx.used ≤ 256)
      (some_bytes : 0 < bus.rx.used) where
    -- Where the buffer has 256 bytes, no reply is under way, both FIFOs are valid, the receive FIFO
    -- holds at least one byte, all that it holds is in one piece and fits behind what the buffer holds,
    -- and the read makes one round: when the bytes of the two make exactly one request of the announced
    -- size, for this address, with an address and a function that are bytes, with a right checksum, and
    -- other than a device identification, then one turn of the worker has them all in the buffer, wakes
    -- the producer of the receive FIFO, serves them and starts the reply; and after any number of
    -- turns that go on with this reply, and of reads of any size by the transmit FIFO's consumer, in any
    -- order, what the consumer has received and what that FIFO holds are what it held before and the
    -- frame that answers the request, or the part of it that has been sent while the reply is not
    -- complete.
    pub on_work-Sending :
        IsValid bus.tx 0 0
        → let request = written bus ++ contents bus.rx in
          req_frame_len request (length request) ≡ length request
          → 7 ≤ length request
          → crc_update crc_init request ≡ check_state
          → get_or request 0 0 ≡ bus.addr
          → bus.addr < 256
          → get_or request 1 0 < 256
          → get_or request 1 0 ≢ read_device_identification
          → (bus1 : Bus) × (w1 : W) × (w1 ≡ exec bus.rx.producer w)
            × (written bus1 ≡ request)
            × (bus1.addr ≡ bus.addr)
            × (bus' : Bus) × (w' : W) × (on_work exec exec_in_ms handler fuel outer (suc more) bus w
                ≡ some (bus', w'))
            × ((t : Line W)
                → Reach exec (record { bus = bus'; world = w'; received = [] }) t
                → Sending
                    (contents bus.tx)
                    (answer_frame exec handler fuel bus1 (length request) w1)
                    t.received
                    t.bus)
    on_work-Sending free_tx announced long good mine small byte ne =
        let g =
          gather exec exec_in_ms handler fuel outer more bus w valid size idle once in_piece room
            some_bytes in
        let request = written bus ++ contents bus.rx in
        let (size', tx, addr) = g.fields in
        let ptr : g.after.ptr ≡ length request = g.full ∙ ap length g.arrived in
        let (n, q) = gathered-IsRequest g.after request g.arrived ptr size' announced long good in
        let same : (i : ℕ) → i < 7 → get_or g.after.buffer i 0 ≡ get_or request i 0 = λ i lt.
          sym (get_or-take g.after.ptr g.after.buffer i 0 (omega (arith, ptr)))
          ∙ ap (λ l. get_or l i 0) g.arrived in
        let (bus', w', e, sent) =
          req_handle-Sending exec handler fuel g.after (length request) g.world size'
            (omega (arith, addr)) (omega (arith, same 1 (omega arith)))
            (same 0 (omega arith) ∙ mine ∙ sym addr) (λ k. ne (sym (same 1 (omega arith)) ∙ k))
            (subst (λ f. IsValid f 0 0) (sym tx) free_tx) in
        (
          g.after,
          g.world,
          g.from_rx,
          g.arrived,
          addr,
          bus',
          w',
          g.turn
              ∙ frame_try-served g.after g.world q
                  (ap (λ k. req_handle exec handler fuel g.after k g.world) n ∙ e),
          λ t r.
              subst
                (λ f.
                  Sending (contents f)
                    (answer_frame exec handler fuel g.after (length request) g.world) t.received
                    t.bus)
                tx (sent t r),
        )
