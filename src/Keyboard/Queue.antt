-- ===== src/Keyboard/Queue.antt =====
-- The ring buffer of ps2_keyboard.c as a queue of characters.
use binbows.Base.{
  ℕ, zero, suc, ◌+◌, ◌%◌, ◌<◌, ◌≡◌, ◌≢◌, refl, ap, ap₂, ◌∙◌, inl, inr, List, [], ◌∷◌, ◌++◌, arith,
  leb, ◌==◌, if◌then◌else◌, update, length, Bool-cases, ==_iff, ==→ne, eq→==, ne→==,
}
use binbows.Keyboard.Ring.{Ring, kbd_enqueue_char, kbd_available, kbd_read_chars}

pub record IsValid (r : Ring) : Type 0 where
  pub head_in : r.kbd_head < 256
  pub tail_in : r.kbd_tail < 256

-- `n` characters from the place `i` on, in the order of their arrival
abbrev pub queued : (ℕ → ℕ) → (i n : ℕ) → List ℕ
queued b i zero = []
queued b i (suc n) = b i ∷ queued b ((i + 1) % 256) n

abbrev pub contents : Ring → List ℕ
contents r = queued r.kbd_buf r.kbd_tail (kbd_available r)

queued-snoc :
    (b : ℕ → ℕ) (i n : ℕ) → i < 256 → queued b i (suc n) ≡ queued b i n ++ (b ((i + n) % 256) ∷ [])
queued-snoc b i zero h = let e : (i + 0) % 256 ≡ i = omega arith in rw e
queued-snoc b i (suc n) h =
    let e : ((i + 1) % 256 + n) % 256 ≡ (i + suc n) % 256 = omega arith in
    ap (λ l. b i ∷ l) (queued-snoc b ((i + 1) % 256) n (omega arith)) ∙ rw e

queued-update :
    (b : ℕ → ℕ) (i n k v : ℕ)
    → i < 256
    → k < 256
    → ((j : ℕ) → j < n → (i + j) % 256 ≢ k)
    → queued (update b k v) i n ≡ queued b i n
queued-update b i zero k v hi hk apart = refl
queued-update b i (suc n) k v hi hk apart =
    let here : i ≢ k = λ e. apart 0 (omega arith) (omega (arith, e)) in
    let first : update b k v i ≡ b i = rw (ne→== i k here) in
    ap₂ (λ x l. x ∷ l) first
      (queued-update b ((i + 1) % 256) n k v (omega arith) hk
        (λ j hj e. apart (suc j) (omega (arith, hj)) (omega (arith, e))))

head_is_end : (r : Ring) → IsValid r → (r.kbd_tail + kbd_available r) % 256 ≡ r.kbd_head
unfolding kbd_available
head_is_end r v = ground (arith, v.head_in, v.tail_in)

-- One more character behind the last, and one fewer at the front
room_after :
    (r : Ring)
    → IsValid r
    → kbd_available r < 255
    → ((r.kbd_head + 1) % 256 ≢ r.kbd_tail)
      × ((b : ℕ → ℕ)
          → kbd_available
              (record { kbd_buf = b; kbd_head = (r.kbd_head + 1) % 256; kbd_tail = r.kbd_tail })
            ≡ suc (kbd_available r))
unfolding kbd_available
room_after r v room =
    ((λ e. ground (arith, v.head_in, v.tail_in)), (λ b. ground (arith, v.head_in, v.tail_in)))

left_after :
    (r : Ring)
    → IsValid r
    → r.kbd_tail ≢ r.kbd_head
    → kbd_available r ≡ suc (kbd_available (record r { kbd_tail = (r.kbd_tail + 1) % 256 }))
unfolding kbd_available
left_after r v ne = ground (arith, v.head_in, v.tail_in)

none_left : (r : Ring) → r.kbd_tail ≡ r.kbd_head → kbd_available r ≡ 0
unfolding kbd_available
none_left r e = ground arith

-- In a well-formed ring where fewer than 255 characters wait, a character that arrives is queued
-- behind them, and the ring stays well-formed.
pub kbd_enqueue_char-appends :
    (c : ℕ) (r : Ring)
    → IsValid r
    → kbd_available r < 255
    → (contents (kbd_enqueue_char c r) ≡ contents r ++ (c ∷ [])) × IsValid (kbd_enqueue_char c r)
unfolding kbd_enqueue_char
kbd_enqueue_char-appends c r v room =
    let (ne, more) = room_after r v room in
    let b = update r.kbd_buf r.kbd_head c in
    let n = kbd_available r in
    let end = head_is_end r v in
    let at : b ((r.kbd_tail + n) % 256) ≡ c = rw end (rw (eq→== r.kbd_head r.kbd_head refl)) in
    rw (ne→== _ _ ne, more b)
      (
        queued-snoc b r.kbd_tail n v.tail_in
            ∙ ap₂ (λ l x. l ++ (x ∷ []))
                (queued-update r.kbd_buf r.kbd_tail n r.kbd_head c v.tail_in v.head_in
                  (λ j hj e. omega (arith, e, hj, end, room, v.tail_in)))
                at,
        record { head_in = omega arith; tail_in = v.tail_in },
      )

-- A character that arrives while 255 wait is dropped.
pub kbd_enqueue_char-full :
    (c : ℕ) (r : Ring) → IsValid r → kbd_available r ≡ 255 → kbd_enqueue_char c r ≡ r
unfolding kbd_enqueue_char kbd_available
kbd_enqueue_char-full c r v full = ground (arith, v.head_in, v.tail_in)

-- From a well-formed ring a reader gets the oldest characters in order, as many as it has room for
-- and no more than wait, the others stay queued, and the ring stays well-formed.
pub kbd_read_chars-takes :
    (len : ℕ) (r : Ring)
    → IsValid r
    → (contents r ≡ (kbd_read_chars len r).0 ++ contents (kbd_read_chars len r).1)
      × (length (kbd_read_chars len r).0
          ≡ (if leb len (kbd_available r) then len else kbd_available r))
      × IsValid (kbd_read_chars len r).1
unfolding kbd_read_chars
kbd_read_chars-takes zero r v = (refl, ground arith, v)
kbd_read_chars-takes (suc n) r v = elim (Bool-cases (r.kbd_tail == r.kbd_head)) [
  | inl e ↦
      let z = none_left r ((==_iff r.kbd_tail r.kbd_head).0 e) in
      rw e (refl, rw z (ground arith), v)
  | inr e ↦
      let one = left_after r v (==→ne r.kbd_tail r.kbd_head e) in
      let (split, count, v') =
        kbd_read_chars-takes n (record r { kbd_tail = (r.kbd_tail + 1) % 256 })
          (record { head_in = v.head_in; tail_in = omega arith }) in
      rw (e, one) (ap (λ l. r.kbd_buf r.kbd_tail ∷ l) split, ap suc count ∙ ground arith, v')
]
