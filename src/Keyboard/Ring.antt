-- ===== src/Keyboard/Ring.antt =====
-- The ring buffer of the characters that wait for a reader: ps2_keyboard.c.
use binbows.Base.{ℕ, zero, suc, ◌+◌, ◌-◌, ◌%◌, List, [], ◌∷◌, leb, ◌==◌, if◌then◌else◌, update}

abbrev pub kbd_buf_size : ℕ
kbd_buf_size = 256

pub record Ring : Type 0 where
  pub kbd_buf : ℕ → ℕ
  pub kbd_head : ℕ
  pub kbd_tail : ℕ

unfoldable pub kbd_enqueue_char : ℕ → Ring → Ring
kbd_enqueue_char c r =
    let next = (r.kbd_head + 1) % kbd_buf_size in
    if next == r.kbd_tail
    then r
    else record r { kbd_buf = update r.kbd_buf r.kbd_head c; kbd_head = next }

unfoldable pub kbd_available : Ring → ℕ
kbd_available r =
    if leb r.kbd_tail r.kbd_head
    then r.kbd_head - r.kbd_tail
    else kbd_buf_size - (r.kbd_tail - r.kbd_head)

-- `while (i < len && kbd_tail != kbd_head)`: at most `len` rounds. The characters that are stored in
-- `buf`, as a list; its length is the result.
unfoldable pub kbd_read_chars : (len : ℕ) → Ring → List ℕ × Ring
kbd_read_chars zero r = ([], r)
kbd_read_chars (suc n) r =
    let rest = kbd_read_chars n (record r { kbd_tail = (r.kbd_tail + 1) % kbd_buf_size }) in
    if r.kbd_tail == r.kbd_head then ([], r) else (r.kbd_buf r.kbd_tail ∷ rest.0, rest.1)

unfoldable pub kbd_clear_buffer : Ring → Ring
kbd_clear_buffer r = record r { kbd_tail = r.kbd_head }
