-- ===== src/Fat/Name.antt =====
-- File names of FAT12, fat12_utils.c: eight characters and three, in capitals, filled with blanks.
-- `none` is a name longer than the fuel.
use binbows.Base.{ℕ, ◌+◌, ◌-◌, ◌&&◌, Option, none, some, ltb, leb, if◌then◌else◌, update}
use binbows.Shell.Text.{Buffer, strlen}
use binbows.Util.Chars.{toupper}
use binbows.Util.Compare.{strchr}

-- `memcpy(dest + at, src + from, n)` from another object
abbrev pub copy_into : (dest : Buffer) → (at : ℕ) → (src : Buffer) → (from n : ℕ) → Buffer
copy_into dest at src from n j =
    if leb at j && ltb j (at + n) then src (from + (j - at)) else dest j

abbrev pub at_most : (limit n : ℕ) → ℕ
at_most limit n = if ltb limit n then limit else n

-- `memset(fat_name, ' ', 11); fat_name[11] = '\0';`
abbrev pub blank_name : Buffer → Buffer
blank_name fat_name = update (λ j. if ltb j 11 then 32 else fat_name j) 11 0

-- The last loop: letters become capitals.
abbrev pub capitals : Buffer → Buffer
capitals fat_name j = if ltb j 11 then toupper (fat_name j) else fat_name j

-- A name with a dot at `dot`, and one without
abbrev pub with_dot : (filename fat_name : Buffer) → (dot rest : ℕ) → Buffer
with_dot filename fat_name dot rest = capitals (
    copy_into (copy_into (blank_name fat_name) 0 filename 0 (at_most 8 dot)) 8 filename (dot + 1)
      (at_most 3 rest))

abbrev pub without_dot : (filename fat_name : Buffer) → (len : ℕ) → Buffer
without_dot filename fat_name len =
    capitals (copy_into (blank_name fat_name) 0 filename 0 (at_most 8 len))

unfoldable pub fat12_format_filename : (fuel : ℕ) → (filename fat_name : Buffer) → Option Buffer
fat12_format_filename fuel filename fat_name = elim (strchr fuel filename 46) [
  | none ↦ none
  | some (some dot) ↦ elim (strlen fuel (λ i. filename (dot + 1 + i))) [
    | none ↦ none
    | some rest ↦ some (with_dot filename fat_name dot rest)
  ]
  | some none ↦ elim (strlen fuel filename) [
    | none ↦ none
    | some len ↦ some (without_dot filename fat_name len)
  ]
]

abbrev pub format_filename_for_compare : (fuel : ℕ) → (filename fat_name : Buffer) → Option Buffer
format_filename_for_compare fuel filename fat_name = fat12_format_filename fuel filename fat_name
