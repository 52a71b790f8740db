-- ===== src/Uart/Attach.antt =====
-- The links between the FIFOs and the tasks that src/uart/uart.c's `pr_uart_attach` makes and drops.
use picore.Base.{
  ℕ, ◌≡◌, ◌≢◌, ◌==◌, ==_iff, refl, sym, ap, ◌∙◌, arith, true, false, inl, inr, Bool-cases, Option,
  none, some,
}
use picore.Fifo.{Fifo, producer_set, consumer_set}
use picore.Fifo.Contents.{contents}
use picore.Uart.{Hardware, Uart, at_pointer, attach}

at_pointer-keeps {ℓ} :
    {X : Type ℓ} (field : Fifo → X) (change : Fifo → Fifo) (o : Option ℕ) (fifos : ℕ → Fifo) (r : ℕ)
    → ((f : Fifo) → field (change f) ≡ field f)
    → field (at_pointer change o fifos r) ≡ field (fifos r)
at_pointer-keeps field change none fifos r same = refl
at_pointer-keeps field change (some p) fifos r same = elim (Bool-cases (r == p)) [
  | inl here ↦ rw here (same (fifos p) ∙ ap (λ k. field (fifos k)) (sym ((==_iff r p).0 here)))
  | inr elsewhere ↦ rw elsewhere refl
]

at_pointer_self :
    (change : Fifo → Fifo) (p : ℕ) (fifos : ℕ → Fifo)
    → at_pointer change (some p) fifos p ≡ change (fifos p)
at_pointer_self change p fifos = let here : (p == p) ≡ true = (==_iff p p).1 refl in rw here refl

at_pointer_other :
    (change : Fifo → Fifo) (p r : ℕ) (fifos : ℕ → Fifo)
    → r ≢ p
    → at_pointer change (some p) fifos r ≡ fifos r
at_pointer_other change p r fifos ne =
    let elsewhere : (r == p) ≡ false = ground (arith, ne) in rw elsewhere refl

module _ {W : Type 0} (hw : Hardware W) (exec : ℕ → W → W) (task_init : ℕ → W → W) where
  -- Attaching two FIFOs, whichever were attached before, the same or one for both directions, makes the
  -- receiving task the producer of the first and the sending task the consumer of the second; drops
  -- these roles from the FIFOs attached before, unless they keep them; and leaves what every FIFO holds.
  attach-links :
      (u : Uart) (p q : ℕ) (fifos : ℕ → Fifo) (w : W)
      → let (u', fifos', w') = attach hw exec task_init u (some p) (some q) fifos w in
        ((fifos' p).producer ≡ some u.from_port_task)
        × ((fifos' q).consumer ≡ some u.to_port_task)
        × ((r : ℕ) → u.from_port ≡ some r → r ≢ p → (fifos' r).producer ≡ none)
        × ((r : ℕ) → u.to_port ≡ some r → r ≢ q → (fifos' r).consumer ≡ none)
        × ((r : ℕ) → contents (fifos' r) ≡ contents (fifos r))
  unfolding attach producer_set consumer_set
  attach-links u p q fifos w =
      let drop_producer = λ (f : Fifo). producer_set f none in
      let drop_consumer = λ (f : Fifo). consumer_set f none in
      let set_producer = λ (f : Fifo). producer_set f (some u.from_port_task) in
      let set_consumer = λ (f : Fifo). consumer_set f (some u.to_port_task) in
      let fifos1 = at_pointer drop_producer u.from_port fifos in
      let fifos2 = at_pointer drop_consumer u.to_port fifos1 in
      let fifos3 = at_pointer set_producer (some p) fifos2 in
      (
        at_pointer-keeps (λ f. f.producer) set_consumer (some q) fifos3 p (λ f. refl)
            ∙ ap (λ f. f.producer) (at_pointer_self set_producer p fifos2),
        ap (λ f. f.consumer) (at_pointer_self set_consumer q fifos3),
        λ r at ne.
            at_pointer-keeps (λ f. f.producer) set_consumer (some q) fifos3 r (λ f. refl)
            ∙ ap (λ f. f.producer) (at_pointer_other set_producer p r fifos2 ne)
            ∙ at_pointer-keeps (λ f. f.producer) drop_consumer u.to_port fifos1 r (λ f. refl)
            ∙ ap (λ o. (at_pointer drop_producer o fifos r).producer) at
            ∙ ap (λ f. f.producer) (at_pointer_self drop_producer r fifos),
        λ r at ne.
            ap (λ f. f.consumer) (at_pointer_other set_consumer q r fifos3 ne)
            ∙ at_pointer-keeps (λ f. f.consumer) set_producer (some p) fifos2 r (λ f. refl)
            ∙ ap (λ o. (at_pointer drop_consumer o fifos1 r).consumer) at
            ∙ ap (λ f. f.consumer) (at_pointer_self drop_consumer r fifos1),
        λ r.
            at_pointer-keeps contents set_consumer (some q) fifos3 r (λ f. refl)
            ∙ at_pointer-keeps contents set_producer (some p) fifos2 r (λ f. refl)
            ∙ at_pointer-keeps contents drop_consumer u.to_port fifos1 r (λ f. refl)
            ∙ at_pointer-keeps contents drop_producer u.from_port fifos r (λ f. refl),
      )
