-- ===== src/Prelude/Pieces.antt =====
-- Rust's ways to take a text apart: trimming, the last separator, a suffix, lines; and `join`.
use Prim.Native.Nat.{ℕ}
use mathlib.Core.Path.{◌≡◌, refl, ap}
use mathlib.Core.Bool.{Bool, false, ◌&&◌, ◌||◌}
use mathlib.Core.Logic.{◌≢◌}
use native.Mathlib.Omega.{arith}
use mathlib.Core.Option.{Option, none, some}
use mathlib.Core.List.{List, [], ◌∷◌, ◌++◌}
use okf_mcp_rs.Prelude.Tests.{◌==◌, leb, if◌then◌else◌}
use okf_mcp_rs.Prelude.Lists.{is_empty, All, length, length-append}
use okf_mcp_rs.Prelude.Strings.{Text, text_eq, text_eq_refl, text_eq_ne}

-- `char::is_whitespace`
abbrev pub is_whitespace : ℕ → Bool
is_whitespace c =
    (leb 9 c && leb c 13)
    || (c == 32)
    || (c == 133)
    || (c == 160)
    || (c == 5760)
    || (leb 8192 c && leb c 8202)
    || (c == 8232)
    || (c == 8233)
    || (c == 8239)
    || (c == 8287)
    || (c == 12288)

unfoldable pub trim_start : Text → Text
trim_start [] = []
trim_start (c ∷ t) = let rest = trim_start t in if is_whitespace c then rest else c ∷ t

unfoldable pub trim_end : Text → Text
trim_end [] = []
trim_end (c ∷ t) =
    let rest = trim_end t in if is_empty rest && is_whitespace c then [] else c ∷ rest

abbrev pub trim : Text → Text
trim t = trim_end (trim_start t)

-- Where the last piece starts that the loop has seen.
unfoldable pub last_piece : (ℕ → Bool) → Text → Text → Text
last_piece p start [] = start
last_piece p start (c ∷ t) = last_piece p (if p c then t else start) t

-- `rsplit(p).next()`: the text after the last character that passes the test, or all of it.
abbrev pub after_last : (ℕ → Bool) → Text → Text
after_last p t = last_piece p t t

-- `rsplit_once` of a character
unfoldable pub rsplit_once : ℕ → Text → Option (Text × Text)
rsplit_once c [] = none
rsplit_once c (x ∷ t) =
    let rest = rsplit_once c t in
    elim rest [
      | some (before, after) ↦ some (x ∷ before, after)
      | none ↦ if c == x then some ([], t) else none
    ]

abbrev onto : ℕ → Option Text → Option Text
onto c none = none
onto c (some t) = some (c ∷ t)

unfoldable pub strip_suffix : Text → Text → Option Text
strip_suffix suffix [] = if is_empty suffix then some [] else none
strip_suffix suffix (c ∷ t) =
    let rest = strip_suffix suffix t in if text_eq (c ∷ t) suffix then some [] else onto c rest

abbrev starts_line : ℕ → List Text → List Text
starts_line c [] = (c ∷ []) ∷ []
starts_line c (l ∷ ls) = (c ∷ l) ∷ ls

abbrev at_newline : Text → Bool
at_newline [] = false
at_newline (c ∷ t) = c == 10

-- `lines`, whose lines end with a newline, a carriage return and a newline, or the end.
unfoldable pub lines : Text → List Text
lines [] = []
lines (c ∷ t) =
    let rest = lines t in
    if c == 10 then [] ∷ rest else if (c == 13) && at_newline t then rest else starts_line c rest

unfoldable pub join : Text → List Text → Text
join sep [] = []
join sep (x ∷ []) = x
join sep (x ∷ y ∷ ys) = x ++ (sep ++ join sep (y ∷ ys))

pub last_piece_none :
    (p : ℕ → Bool) (start t : Text) → All (λ c. p c ≡ false) t → last_piece p start t ≡ start
unfolding last_piece
last_piece_none p start [] h = refl
last_piece_none p start (c ∷ t) h = rw h.0 (last_piece_none p start t h.1)

trim_start_keeps : (t : Text) → All (λ c. is_whitespace c ≡ false) t → trim_start t ≡ t
unfolding trim_start
trim_start_keeps [] h = refl
trim_start_keeps (c ∷ t) h = rw h.0 refl

trim_end_keeps : (t : Text) → All (λ c. is_whitespace c ≡ false) t → trim_end t ≡ t
unfolding trim_end
trim_end_keeps [] h = refl
trim_end_keeps (c ∷ []) h = rw h.0 refl
trim_end_keeps (c ∷ x ∷ t) h = rw (trim_end_keeps (x ∷ t) h.1) refl

pub trim_keeps : (t : Text) → All (λ c. is_whitespace c ≡ false) t → trim t ≡ t
trim_keeps t h = rw (trim_start_keeps t h, trim_end_keeps t h) refl

append_longer : (c : ℕ) (t suffix : Text) → c ∷ (t ++ suffix) ≢ suffix
append_longer c t suffix e = omega (arith, ap length e, length-append t suffix)

pub strip_suffix_self : (suffix : Text) → strip_suffix suffix suffix ≡ some []
unfolding strip_suffix
strip_suffix_self [] = refl
strip_suffix_self (c ∷ t) = rw (text_eq_refl (c ∷ t)) refl

pub strip_suffix-append : (t suffix : Text) → strip_suffix suffix (t ++ suffix) ≡ some t
unfolding strip_suffix
strip_suffix-append [] suffix = strip_suffix_self suffix
strip_suffix-append (c ∷ t) suffix =
    rw
      (
        text_eq_ne (c ∷ (t ++ suffix)) suffix (append_longer c t suffix),
        strip_suffix-append t suffix,
      )
      refl
