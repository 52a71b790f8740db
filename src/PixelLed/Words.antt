-- ===== src/PixelLed/Words.antt =====
-- The words that the interrupt of src/pixel_led/pixel_led.c gives to the PIO.
use picore.Base.{
  ℕ, zero, suc, ◌+◌, ◌-◌, ◌≤◌, ◌<◌, ◌≡◌, refl, sym, ap, ap₂, ◌*◌, ◌/◌, ◌%◌, if◌then◌else◌, get_or,
  ◌∙◌, arith, Bool, true, false, ◌⊎◌, inl, inr, Bool-cases, Option, some, List, [], ◌∷◌, ◌++◌,
  append_assoc, append-nil, ltb,
}
use picore.PixelLed.{Strip, Sdk, word, push_loop, on_pixel_led_irq}

-- The words of `n` pixels from `i` on.
abbrev pub frame : (ℕ → ℕ) → ℕ → ℕ → List ℕ
frame at i zero = []
frame at i (suc n) = at i ∷ frame at (suc i) n

-- The four bytes that a word sends first to last, from the green of a pixel on.
abbrev pub big_endian : ℕ → ℕ → ℕ → ℕ → ℕ
big_endian first second third fourth = ((first * 256 + second) * 256 + third) * 256 + fourth

-- A byte as it goes out, all its bits inverted on an inverted strip.
abbrev pub lit : Bool → ℕ → ℕ
lit inv byte = if inv then 255 - byte else byte

-- The word of a pixel: its three low bytes, the highest first, then an empty byte; what a pixel has
-- above 24 bits is not sent.
abbrev pub wire : Bool → ℕ → ℕ
wire inv pixel =
    big_endian (lit inv (pixel / 65536 % 256)) (lit inv (pixel / 256 % 256)) (lit inv (pixel % 256))
      (lit inv 0)

word-wire : (s : Strip) (i : ℕ) → word s i ≡ wire s.inv (get_or s.pixel_data i 0)
word-wire s i = elim (Bool-cases s.inv) [
  | inl on ↦ rw on (omega arith)
  | inr off ↦ rw off (omega arith)
]

-- The word that ends a transfer.
abbrev pub ending : Bool → List ℕ
ending true = 0 ∷ []
ending false = []

module _ {W : Type 0} (sdk : Sdk W) (words : W → List ℕ) where
  -- `words` are those given to the state machine so far; the other calls of the interrupt give it none.
  pub record IsPio (pio sm : ℕ) : Type 0 where
    pub put : (v : ℕ) (w : W) → words (sdk.pio_sm_put pio sm v w) ≡ words w ++ (v ∷ [])
    pub enabled :
        (on : Bool) (w : W) → words (sdk.pio_set_irq0_source_enabled pio sm on w) ≡ words w
    pub still :
        (on : Bool) (w : W)
        → sdk.pio_sm_is_tx_fifo_full pio sm (sdk.pio_set_irq0_source_enabled pio sm on w)
          ≡ sdk.pio_sm_is_tx_fifo_full pio sm w
    pub executed : (task us : ℕ) (w : W) → words (sdk.pr_task_exec_in_us task us w) ≡ words w

  -- A run has given the next `count` pixels, and the ending if and only if these were the last.
  pub record Pushed (s : Strip) (w : W) (result : Option (Strip × Bool × W)) : Type 0 where
    pub count : ℕ
    pub done : Bool
    pub world : W
    pub returns : result ≡ some (record s { offset = s.offset + count }, done, world)
    pub inside : s.offset + count ≤ s.pixel_count
    pub given : words world ≡ words w ++ (frame (word s) s.offset count ++ ending done)
    pub ended : done ≡ true → s.offset + count ≡ s.pixel_count
    pub stopped : done ≡ false → sdk.pio_sm_is_tx_fifo_full s.pio s.sm world ≡ true

  push_loop-Pushed :
      (fuel : ℕ) (s : Strip) (w : W)
      → IsPio s.pio s.sm
      → s.offset ≤ s.pixel_count
      → s.pixel_count - s.offset < fuel
      → Pushed s w (push_loop sdk fuel s w)
  unfolding push_loop
  push_loop-Pushed zero s w law le lt = absurd (omega arith)
  push_loop-Pushed (suc fuel) s w law le lt =
      elim (Bool-cases (sdk.pio_sm_is_tx_fifo_full s.pio s.sm w)) [
        | inl full ↦ record {
          count = 0;
          done = false;
          world = w;
          returns =
              simp (full, push_loop)
                (ap (λ k. some (record s { offset = k }, false, w)) (omega arith));
          inside = omega arith;
          given = sym (append-nil (words w));
          ended = λ e. absurd (ground (arith, e));
          stopped = λ e. full;
        }
        | inr room ↦ elim (Bool-cases (ltb s.offset s.pixel_count)) [
          | inr none_left ↦ record {
            count = 0;
            done = true;
            world = sdk.pio_sm_put s.pio s.sm 0 w;
            returns =
                simp (room, push_loop, none_left)
                  (ap (λ k. some (record s { offset = k }, true, sdk.pio_sm_put s.pio s.sm 0 w))
                    (omega arith));
            inside = omega arith;
            given = law.put 0 w;
            ended = λ e. ground (arith, none_left, le);
            stopped = λ e. absurd (ground (arith, e));
          }
          | inl more ↦
              let s1 = record s { offset = suc s.offset } in
              let w1 = sdk.pio_sm_put s.pio s.sm (word s s.offset) w in
              let rest =
                push_loop-Pushed fuel s1 w1 law (ground (arith, more)) (ground (arith, more, lt)) in
              record {
                count = suc rest.count;
                done = rest.done;
                world = rest.world;
                returns =
                    simp (room, push_loop, more)
                      (rest.returns
                        ∙ ap (λ k. some (record s { offset = k }, rest.done, rest.world))
                            (omega arith));
                inside = omega (arith, rest.inside);
                given =
                    rest.given
                    ∙ ap (λ l. l ++ (frame (word s) (suc s.offset) rest.count ++ ending rest.done))
                        (law.put (word s s.offset) w)
                    ∙ append_assoc (words w) (word s s.offset ∷ [])
                        (frame (word s) (suc s.offset) rest.count ++ ending rest.done);
                ended = λ e. omega (arith, rest.ended e);
                stopped = rest.stopped;
              }
        ]
      ]

  frame-wire :
      (s : Strip) (i n : ℕ)
      → frame (word s) i n ≡ frame (λ k. wire s.inv (get_or s.pixel_data k 0)) i n
  frame-wire s i zero = refl
  frame-wire s i (suc n) = ap₂ (λ x xs. x ∷ xs) (word-wire s i) (frame-wire s (suc i) n)

  -- On a PIO that takes the words it is given, with an offset within the strip and enough fuel, the
  -- interrupt of a strip returns: it gives the PIO the words of the next pixels, in order, none left
  -- out, until the PIO is full; or, if there are no more, all that are left and the word that ends the
  -- frame. The word of a pixel has its three low bytes, the highest first, then a byte 0, and the bits
  -- of all four inverted on an inverted strip.
  pub on_pixel_led_irq-frame :
      (fuel : ℕ) (s : Strip) (w : W)
      → IsPio s.pio s.sm
      → s.offset ≤ s.pixel_count
      → s.pixel_count - s.offset < fuel
      → (n : ℕ) × (done : Bool) × (w' : W) × (on_pixel_led_irq sdk fuel s w
          ≡ some (record s { offset = s.offset + n }, w'))
        × (words w'
            ≡ words w
              ++ (frame (λ i. wire s.inv (get_or s.pixel_data i 0)) s.offset n ++ ending done))
        × (s.offset + n ≤ s.pixel_count)
        × ((done ≡ true) × (s.offset + n ≡ s.pixel_count)
            ⊎ (done ≡ false) × (sdk.pio_sm_is_tx_fifo_full s.pio s.sm w' ≡ true))
  unfolding on_pixel_led_irq
  on_pixel_led_irq-frame fuel s w law le lt =
      let m = push_loop-Pushed fuel s w law le lt in
      elim (Bool-cases m.done) [
        | inl done ↦ (
          m.count,
          m.done,
          sdk.pio_set_irq0_source_enabled s.pio s.sm false
              (sdk.pr_task_exec_in_us s.done_task 50 m.world),
          simp (on_pixel_led_irq, m.returns, done) refl,
          law.enabled false (sdk.pr_task_exec_in_us s.done_task 50 m.world)
              ∙ law.executed s.done_task 50 m.world
              ∙ m.given
              ∙ ap (λ l. words w ++ (l ++ ending m.done)) (frame-wire s s.offset m.count),
          m.inside,
          inl (done, m.ended done),
        )
        | inr more ↦ (
          m.count,
          m.done,
          sdk.pio_set_irq0_source_enabled s.pio s.sm true m.world,
          simp (on_pixel_led_irq, m.returns, more) refl,
          law.enabled true m.world
              ∙ m.given
              ∙ ap (λ l. words w ++ (l ++ ending m.done)) (frame-wire s s.offset m.count),
          m.inside,
          inr (more, law.still true m.world ∙ m.stopped more),
        )
      ]
