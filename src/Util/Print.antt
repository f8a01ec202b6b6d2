-- ===== src/Util/Print.antt =====
-- What `vsnprintf` of util.c writes: it ends, and where it stops.
use binbows.Base.{
  ℕ, zero, suc, ◌+◌, ◌-◌, ◌%◌, ◌^◌, ◌≤◌, ◌<◌, ◌≡◌, refl, sym, ◌∙◌, ◌⊎◌, inl, inr, false, ◌||◌,
  Option, none, some, List, arith, leb, ◌==◌, update, length, Bool-cases, ==_iff, ==→ne, eq→==,
  ne→==,
}
use binbows.Shell.Text.{Buffer, IsLength}
use binbows.Util.Compare.{lt_length}
use binbows.Util.Format.{
  Printer, put, put_string, text_at, put_number, with_arg, Modifier, plain, is_long, is_longlong,
  unsigned_text, conversion, directive, next_format, vsnprintf_loop, vsnprintf,
}
use binbows.Util.Number.{int_to_str}
use binbows.Util.Within.{
  Prints, put-Within, Within-trans, put_string-Within, int_to_str-some, unsigned_text-some,
  put_number-Prints, take_arg-Prints,
}

directive-Prints :
    (memory : ℕ → ℕ) (size limit n c : ℕ) (m : Modifier) (p : Printer)
    → size - 1 ≤ limit
    → (c ≡ 112 → size ≤ limit)
    → p.pos < size - 1
    → suc n ≤ length p.args
    → Prints limit n p (directive memory size c m p)
unfolding directive
directive-Prints memory size limit n c m p le wide h a = elim (Bool-cases (c == 37)) [
  | inl e ↦ rw e (put 37 p, refl, put-Within limit n 37 p (omega arith) (omega arith))
  | inr e1 ↦ elim (Bool-cases (c == 115)) [
    | inl e ↦
        rw (e1, e)
          (take_arg-Prints limit n p.args
            (λ word q. some (put_string (size - 1 - q.pos) 0 (text_at memory word) q)) p a
            (λ word words b. (
              put_string (size - 1 - p.pos) 0 (text_at memory word) (record p { args = words }),
              refl,
              put_string-Within (size - 1 - p.pos) 0 limit n (text_at memory word)
                  (record p { args = words }) (omega arith) b,
            )))
    | inr e2 ↦ elim (Bool-cases (c == 99)) [
      | inl e ↦
          rw (e1, e2, e)
            (take_arg-Prints limit n p.args (λ word q. some (put (word % 2 ^ 8) q)) p a
              (λ word words b. (
                put (word % 2 ^ 8) (record p { args = words }),
                refl,
                put-Within limit n (word % 2 ^ 8) (record p { args = words }) (omega arith) b,
              )))
      | inr e3 ↦ elim (Bool-cases (c == 100 || c == 105)) [
        | inl e ↦
            rw (e1, e2, e3, e)
              (take_arg-Prints limit n p.args
                (λ word q. put_number size (int_to_str (word % 2 ^ 32) (λ i. 0)) q) p a
                (λ word words b.
                  put_number-Prints size limit n (record p { args = words })
                    (int_to_str (word % 2 ^ 32) (λ i. 0))
                    (int_to_str-some (word % 2 ^ 32) (λ i. 0) (omega arith)) le (omega arith) b))
        | inr e4 ↦ elim (Bool-cases (c == 117)) [
          | inl e ↦
              rw (e1, e2, e3, e4, e)
                (take_arg-Prints limit n p.args
                  (λ word q. put_number size (unsigned_text m 10 word) q) p a
                  (λ word words b.
                    put_number-Prints size limit n (record p { args = words })
                      (unsigned_text m 10 word) (unsigned_text-some m word).0 le (omega arith) b))
          | inr e5 ↦ elim (Bool-cases (c == 120)) [
            | inl e ↦
                rw (e1, e2, e3, e4, e5, e)
                  (take_arg-Prints limit n p.args
                    (λ word q. put_number size (unsigned_text m 16 word) q) p a
                    (λ word words b.
                      put_number-Prints size limit n (record p { args = words })
                        (unsigned_text m 16 word) (unsigned_text-some m word).1 le (omega arith) b))
            | inr e6 ↦ elim (Bool-cases (c == 112)) [
              | inl e ↦ rw (e1, e2, e3, e4, e5, e6, e) (pointer (wide ((==_iff c 112).0 e)))
              | inr e7 ↦
                  rw (e1, e2, e3, e4, e5, e6, e7)
                    (p, refl, (omega arith, (λ j hj. refl), refl, omega arith))
            ]
          ]
        ]
      ]
    ]
  ]
]
  where
    pointer :
        size ≤ limit
        → Prints limit n p (
            with_arg
              (λ word q. put_number size (unsigned_text is_long 16 word) q)
              (put 120 (put 48 p)))
    pointer wider =
        let start = put 120 (put 48 p) in
        let (q, e, w) =
          take_arg-Prints limit n p.args
            (λ word q. put_number size (unsigned_text is_long 16 word) q) start a
            (λ word words b.
              put_number-Prints size limit n (record start { args = words })
                (unsigned_text is_long 16 word) (unsigned_text-some is_long word).1 le (omega arith)
                b) in
        (
          q,
          e,
          Within-trans limit n p start q
              (Within-trans limit n p (put 48 p) start
                (put-Within limit n 48 p (omega arith) (omega arith))
                (put-Within limit n 120 (put 48 p) (omega arith) (omega arith)))
              w,
        )

-- A conversion that is found stands inside of the format.
conversion-inside :
    (len at : ℕ) (format : Buffer)
    → IsLength format len
    → at ≤ len
    → (conversion format at ≡ none)
      ⊎ ((d : ℕ) × (m : Modifier) × (k : ℕ) × (conversion format at ≡ some (d, m, k))
          × (at ≤ k)
          × (k < len)
          × (d ≡ format k))
unfolding conversion
conversion-inside len at format h le = elim (Bool-cases (format at == 0)) [
  | inl e ↦ rw e (inl refl)
  | inr e ↦
      let one = lt_length len at format h le (==→ne (format at) 0 e) in
      elim (Bool-cases (format at == 108)) [
        | inr f ↦ rw (e, f) (inr (format at, plain, at, refl, omega arith, one, refl))
        | inl f ↦ elim (Bool-cases (format (suc at) == 0)) [
          | inl g ↦ rw (e, f, g) (inl refl)
          | inr g ↦
              let two =
                lt_length len (suc at) format h (omega arith) (==→ne (format (suc at)) 0 g) in
              elim (Bool-cases (format (suc at) == 108)) [
                | inr i ↦
                    rw (e, f, g, i)
                      (inr (format (suc at), is_long, suc at, refl, omega arith, two, refl))
                | inl i ↦ elim (Bool-cases (format (suc (suc at)) == 0)) [
                  | inl k ↦ rw (e, f, g, i, k) (inl refl)
                  | inr k ↦
                      let three =
                        lt_length len (suc (suc at)) format h (omega arith)
                          (==→ne (format (suc (suc at))) 0 k) in
                      rw (e, f, g, i, k)
                        (inr (
                          format (suc (suc at)),
                          is_longlong,
                          suc (suc at),
                          refl,
                          omega arith,
                          three,
                          refl,
                        ))
                ]
              ]
        ]
      ]
]

-- What the loop leaves
abbrev Ends : (limit : ℕ) → Printer → Option Printer → Type 0
Ends limit p r =
    (q : Printer) × (r ≡ some q) × (q.pos ≤ limit) × ((j : ℕ) → limit ≤ j → q.buf j ≡ p.buf j)

vsnprintf_loop-Ends :
    (memory : ℕ → ℕ) (size limit fuel len : ℕ) (format : Buffer) (p : Printer)
    → IsLength format len
    → size - 1 ≤ limit
    → ((i : ℕ) → i < len → format i ≡ 112 → size ≤ limit)
    → p.format ≤ len
    → len < p.format + fuel
    → p.pos ≤ limit
    → len ≤ p.format + length p.args
    → Ends limit p (vsnprintf_loop memory size fuel format p)
unfolding vsnprintf_loop
vsnprintf_loop-Ends memory size limit zero len format p h le wide fl fuel b args =
    absurd (omega arith)
vsnprintf_loop-Ends memory size limit (suc n) len format p h le wide fl fuel b args =
    elim (Bool-cases (format p.format == 0 || leb (size - 1) p.pos)) [
      | inl e ↦ rw e (p, refl, b, (λ j hj. refl))
      | inr e ↦
          let here = lt_length len p.format format h fl (ground (arith, e)) in
          let room : p.pos < size - 1 = ground (arith, e) in
          elim (Bool-cases (format p.format == 37)) [
            | inr f ↦
                let next = next_format (put (format p.format) p) in
                let (q, r, bq, kq) =
                  vsnprintf_loop-Ends memory size limit n len format next h le wide (omega arith)
                    (omega arith) (omega arith) (omega arith) in
                rw (e, f) (q, r, bq, (λ j hj. kq j hj ∙ ground (arith, hj)))
            | inl f ↦ elim (conversion-inside len (suc p.format) format h (omega arith)) [
              | inl g ↦ rw (e, f, g) (p, refl, b, (λ j hj. refl))
              | inr (d, m, k, g, lo, hi, at) ↦
                  let start = record p { format = k } in
                  let (q, r, (bq, kq, fq, aq)) =
                    directive-Prints memory size limit (len - suc k) d m start le
                      (λ z. wide k hi (sym at ∙ z)) room (omega arith) in
                  let (q', r', bq', kq') =
                    vsnprintf_loop-Ends memory size limit n len format (next_format q) h le wide
                      (omega (arith, fq)) (omega (arith, fq)) bq (omega (arith, fq, aq)) in
                  rw (e, f, g, r) (q', r', bq', (λ j hj. kq' j hj ∙ kq j hj))
            ]
          ]
    ]

-- For a terminated format shorter than the fuel, a `size` of at least one and an argument for each
-- character of the format: `vsnprintf` returns, its length is at most `limit`, the terminator
-- stands there and nothing behind `limit` is written, where `limit` is at least `size - 1`, and at
-- least `size` if the format has a `p`.
pub vsnprintf-some :
    (memory : ℕ → ℕ) (size limit fuel len : ℕ) (buf format : Buffer) (args : List ℕ)
    → IsLength format len
    → 1 ≤ size
    → size - 1 ≤ limit
    → ((i : ℕ) → i < len → format i ≡ 112 → size ≤ limit)
    → len < fuel
    → len ≤ length args
    → (pos : ℕ) × (out : Buffer) × (vsnprintf memory size fuel buf format args ≡ some (pos, out))
      × (pos ≤ limit)
      × (out pos ≡ 0)
      × ((j : ℕ) → limit < j → out j ≡ buf j)
unfolding vsnprintf
vsnprintf-some memory size limit fuel len buf format args h one le wide enough given =
    let p : Printer = record { format = 0; args = args; pos = 0; buf = buf } in
    let (q, r, b, k) =
      vsnprintf_loop-Ends memory size limit fuel len format p h le wide (omega arith) (omega arith)
        (omega arith) (omega arith) in
    let some_size : (size == 0) ≡ false = ne→== size 0 (λ z. omega (arith, z)) in
    rw (some_size, r)
      (
        q.pos,
        update q.buf q.pos 0,
        refl,
        b,
        rw (eq→== q.pos q.pos refl) refl,
        (λ j hj. rw (ne→== j q.pos (λ z. omega (arith, z, hj))) (k j (omega (arith, hj)))),
      )
