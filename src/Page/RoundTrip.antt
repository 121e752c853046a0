-- ===== src/Page/RoundTrip.antt =====
-- What the readers of NodeParser return on the bytes that the serializer writes.
pub mod Link
pub mod Leaf
pub mod Overflow
pub mod Internal
use native.Mathlib.Nat.{pow-suc, add-zero}
use libbruce.Base.{
  ℕ, zero, suc, ◌+◌, ◌-◌, ◌%◌, ◌*◌, ◌/◌, ◌^◌, ◌≤◌, ◌<◌, ◌≡◌, refl, sym, ap, ◌∙◌, true, false, List,
  [], ◌∷◌, ◌++◌, map, append_assoc, length, length-append, length-drop, take, drop, take-append,
  drop-append, drop-add, All, arith, Result, ok, le→leb, lt→leb-false, leb, err, ==_iff, ◌==◌,
}
use libbruce.Memory.{Slice, wrap32}
use libbruce.Functions.{TreeFunctions}
use libbruce.Page.{Page, encode, decode}
use libbruce.Page.Write.{join}
use libbruce.Page.Read.{
  Reader, ◌>>=◌, validate, read_bytes, read_int, read_slice, repeat, checked, pure, key_count,
  validate_at_end, AnyNode, parse_as, parse_node,
}

pub length-encode : (w n : ℕ) → length (encode w n) ≡ w
unfolding encode
length-encode zero n = refl
length-encode (suc w) n = ap suc (length-encode w (n / 256))

pub decode-encode : (w n : ℕ) → n < 256 ^ w → decode (encode w n) ≡ n
unfolding encode decode
decode-encode zero n h = omega arith
decode-encode (suc w) n h = omega (arith, decode-encode w (n / 256) (omega (arith, pow-suc 256 w)))

pub pure-ok : {A : Type 0} (a : A) (input : Page) (off : ℕ) → pure a input off ≡ ok (a, off)
unfolding pure
pure-ok a input off = refl

-- The page goes on with these bytes at the offset.
abbrev pub At : Page → ℕ → List ℕ → Type 0
At input off bs = drop off input ≡ bs

module _ (input : Page) (off : ℕ) (bs rest : List ℕ) (here : At input off (bs ++ rest)) where
  pub advance : At input (off + length bs) rest
  advance =
      drop-add off (length bs) input
      ∙ ap (drop (length bs)) here
      ∙ drop-append bs rest (length bs) refl

  left : length input - off ≡ length bs + length rest
  left = sym (length-drop off input) ∙ ap length here ∙ length-append bs rest

  pub in_page : 0 < length bs + length rest → off < length input
  in_page h = omega (arith, left)

  pub fits : 0 < length bs → off + length bs ≤ length input
  fits h = omega (arith, left)

-- The reader takes the bytes for the value, whatever follows.
abbrev pub Parses : {A : Type 0} → Reader A → List ℕ → A → Type 0
Parses p bs x =
    (input : Page) (off : ℕ) (rest : List ℕ)
    → At input off (bs ++ rest)
    → p input off ≡ ok (x, off + length bs)

-- The same of a reader that first checks that the page goes on.
abbrev pub ParsesMore : {A : Type 0} → Reader A → List ℕ → A → Type 0
ParsesMore p bs x =
    (input : Page) (off : ℕ) (rest : List ℕ)
    → At input off (bs ++ rest)
    → 0 < length bs + length rest
    → p input off ≡ ok (x, off + length bs)

pub bind-ok :
    {A B : Type 0} (m : Reader A) (f : A → Reader B) (input : Page) (off : ℕ) {a : A} {off' : ℕ}
    → m input off ≡ ok (a, off')
    → (m >>= f) input off ≡ f a input off'
unfolding ◌>>=◌
bind-ok {A} {B} m f input off e =
    ap
      (λ (r : Result (A × ℕ)).
        let y : Result (B × ℕ) = elim r [ ok (a, off') ↦ f a input off' | err e ↦ err e ] in y)
      e

pub read_bytes-Parses : (w : ℕ) (bs : List ℕ) → 0 < w → w ≡ length bs → Parses (read_bytes w) bs bs
unfolding read_bytes
read_bytes-Parses w bs pos e input off rest h =
    rw (le→leb (off + w) (length input) (omega (arith, fits input off bs rest h)))
      (rw (h, take-append bs rest w e, e))

pub read_int-Parses : (w n : ℕ) → 0 < w → n < 256 ^ w → Parses (read_int w) (encode w n) n
unfolding read_int
read_int-Parses w n pos h input off rest at =
    bind-ok (read_bytes w) _ input off
      (read_bytes-Parses w (encode w n) pos (sym (length-encode w n)) input off rest at)
    ∙ pure-ok _ input _
    ∙ ap (λ k. ok (k, off + length (encode w n))) (decode-encode w n h)

-- The client's function finds the length of a slice whatever follows it.
abbrev pub Measures : (Slice → ℕ) → Slice → Type 0
Measures measure s = (rest : List ℕ) → measure (s ++ rest) ≡ length s

pub read_slice-Parses :
    (measure : Slice → ℕ) (s : Slice)
    → Measures measure s
    → length s < 2 ^ 32
    → Parses (read_slice measure) s s
unfolding read_slice
read_slice-Parses measure s m small input off rest h =
    let n_eq : wrap32 (measure (drop off input)) ≡ length s =
      omega (arith, ap measure h ∙ m rest) in
    rw (n_eq, h, take-append s rest (length s) refl)

pub validate-ok : (input : Page) (off : ℕ) → off < length input → validate input off ≡ ok (tt, off)
unfolding validate
validate-ok input off h = rw (lt→leb-false (length input) off h)

pub checked-ParsesMore :
    {A : Type 0} (p : Reader A) (bs : List ℕ) (x : A) → Parses p bs x → ParsesMore (checked p) bs x
unfolding checked
checked-ParsesMore p bs x h input off rest at more =
    bind-ok validate (λ _. p) input off (validate-ok input off (in_page input off bs rest at more))
    ∙ h input off rest at

pub repeat-ParsesMore :
    {A B : Type 0} (p : Reader A) (enc : B → List ℕ) (out : B → A) (xs : List B)
    → All (λ x. ParsesMore p (enc x) (out x)) xs
    → (input : Page) (off : ℕ) (rest : List ℕ) → At input off (join enc xs ++ rest)
    → All (λ x. 0 < length (enc x) + length rest) xs
    → repeat (length xs) p input off ≡ ok (map out xs, off + length (join enc xs))
unfolding repeat
repeat-ParsesMore p enc out [] h input off rest at more =
    pure-ok [] input off ∙ ap (λ n. ok ([], n)) (sym (add-zero off))
repeat-ParsesMore p enc out (x ∷ xs) h input off rest at more =
    let at' : At input off (enc x ++ (join enc xs ++ rest)) =
      at ∙ append_assoc (enc x) (join enc xs) rest in
    let first =
      h.0 input off (join enc xs ++ rest) at'
        (omega (arith, length-append (join enc xs) rest, more.0)) in
    let others =
      repeat-ParsesMore p enc out xs h.1 input (off + length (enc x)) rest
        (advance input off (enc x) (join enc xs ++ rest) at') more.1 in
    let end_eq : off + length (enc x) + length (join enc xs) ≡ off + length (enc x ++ join enc xs) =
      omega (arith, length-append (enc x) (join enc xs)) in
    bind-ok p _ input off first
    ∙ bind-ok (repeat (length xs) p) _ input (off + length (enc x)) others
    ∙ pure-ok _ input _
    ∙ ap (λ n. ok (out x ∷ map out xs, n)) end_eq

pub key_count-ok :
    (input : Page) (off n : ℕ) (rest : List ℕ)
    → At input 2 (encode 4 n ++ rest)
    → n < 2 ^ 32
    → key_count input off ≡ ok (n, off)
unfolding key_count
key_count-ok input off n rest at h =
    let e = read_int-Parses 4 n (omega arith) h input 2 rest at in
    ap
      (λ (r : Result (ℕ × ℕ)).
        let y : Result (ℕ × ℕ) = elim r [ ok (m, _) ↦ ok (m, off) | err x ↦ err x ] in y)
      e

pub validate_at_end-ok :
    (input : Page) (off : ℕ) → off ≡ length input → validate_at_end input off ≡ ok (tt, off)
unfolding validate_at_end
validate_at_end-ok input off h = rw ((==_iff off (length input)).1 h)

-- The switch on the flags.
pub parse_node-ok :
    {C : Type 0} (fns : TreeFunctions) (input : Page) (flags : ℕ) (rest : List ℕ)
    → At input 0 (encode 2 flags ++ rest)
    → flags < 2 ^ 16
    → parse_node {C = C} fns input ≡ parse_as fns flags input
unfolding parse_node
parse_node-ok {C} fns input flags rest at h =
    let e = read_int-Parses 2 flags (omega arith) h input 0 rest at in
    ap
      (λ (r : Result (ℕ × ℕ)).
        let y : Result (AnyNode C) = elim r [ ok (m, _) ↦ parse_as fns m input | err x ↦ err x ] in
        y)
      e
