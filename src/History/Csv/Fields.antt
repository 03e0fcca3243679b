-- ===== src/History/Csv/Fields.antt =====
-- A name that goes into a column comes out of it again.
use open_fire_watch.Base.{
  ℕ, ◌≡◌, refl, Bool, true, false, ◌||◌, [], ◌∷◌, ◌++◌, any, ◌==◌, if◌then◌else◌, arith, inl, inr,
  Bool-cases, ==_iff,
}
use open_fire_watch.Base.Text.{Text}
use open_fire_watch.History.Csv.{quote, semicolon, is_special, doubled, csv_field}

-- A reader of a field: outside quotes it ends at a semicolon or at either sign of a line end, inside
-- them at the closing quote, a doubled quote being one quote. It gives the field and the text after it.
abbrev pub ends_field : ℕ → Bool
ends_field c = c == semicolon || c == 13 || c == 10

read_quoted : Bool → Text → Text × Text
read_quoted pending [] = ([], [])
read_quoted false (c ∷ s) =
    let next = read_quoted true s in
    let more = read_quoted false s in if c == quote then next else (c ∷ more.0, more.1)
read_quoted true (c ∷ s) =
    let more = read_quoted false s in if c == quote then (quote ∷ more.0, more.1) else ([], c ∷ s)

read_plain : Text → Text × Text
read_plain [] = ([], [])
read_plain (c ∷ s) =
    let more = read_plain s in if ends_field c then ([], c ∷ s) else (c ∷ more.0, more.1)

unfoldable pub read_field : Text → Text × Text
unfolding read_quoted read_plain
read_field [] = ([], [])
read_field (c ∷ s) = if c == quote then read_quoted false s else read_plain (c ∷ s)

read_quoted-doubled :
    (value : Text) (end : ℕ) (rest : Text)
    → end == quote ≡ false
    → read_quoted false ((doubled value ++ (quote ∷ [])) ++ (end ∷ rest)) ≡ (value, end ∷ rest)
unfolding doubled read_quoted
read_quoted-doubled [] end rest n = rw n refl
read_quoted-doubled (c ∷ s) end rest n = elim (Bool-cases (c == quote)) [
  | inl e ↦ rw (e, read_quoted-doubled s end rest n, (==_iff c quote).0 e)
  | inr e ↦ rw (e, e, read_quoted-doubled s end rest n)
]

read_plain-value :
    (value : Text) (end : ℕ) (rest : Text)
    → ends_field end ≡ true
    → any is_special value ≡ false
    → read_plain (value ++ (end ∷ rest)) ≡ (value, end ∷ rest)
unfolding read_plain
read_plain-value [] end rest n h = rw n refl
read_plain-value (c ∷ s) end rest n h = ground (arith, read_plain-value s end rest n)

ends_field-quote : (end : ℕ) → ends_field end ≡ true → end == quote ≡ false
ends_field-quote end n = ground arith

read_field-plain :
    (value : Text) (end : ℕ) (rest : Text)
    → ends_field end ≡ true
    → any is_special value ≡ false
    → read_field (value ++ (end ∷ rest)) ≡ (value, end ∷ rest)
unfolding read_field
read_field-plain [] end rest n h = rw (ends_field-quote end n) (read_plain-value [] end rest n refl)
read_field-plain (c ∷ s) end rest n h = ground (arith, read_plain-value (c ∷ s) end rest n)

-- Whatever name a zone has, with semicolons, quotes or line ends in it, its field in the table reads
-- back as the name, up to the semicolon or the line end after it, by a reader to whom a semicolon or
-- either sign of a line end closes a field that has no quotes.
pub read_field-csv_field :
    (value : Text) (end : ℕ) (rest : Text)
    → ends_field end ≡ true
    → read_field (csv_field value ++ (end ∷ rest)) ≡ (value, end ∷ rest)
unfolding csv_field read_field
read_field-csv_field value end rest n = elim (Bool-cases (any is_special value)) [
  | inl e ↦ rw e (read_quoted-doubled value end rest (ends_field-quote end n))
  | inr e ↦ rw e (read_field-plain value end rest n e)
]
