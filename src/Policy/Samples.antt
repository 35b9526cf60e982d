-- ===== src/Policy/Samples.antt =====
-- Stand-ins for the library functions and the floats, for tests: simple functions on texts, and the
-- natural numbers.
use recordlane.Base.{ℕ, ◌+◌, ◌*◌, ◌-◌, String, true, none, some, leb, ◌==◌, str_eq, if◌then◌else◌}
use recordlane.Json.{Value, null, int}
use recordlane.Policy.{Library, Floats, Identifier}

abbrev show : Value → String
show null = "None"
show (int n) = "0"
show v = "other"

abbrev pub plain : Library
plain = record {
  nfkc = λ s. s;
  strip = λ s. s;
  collapse = λ s. s;
  upper = λ s. s;
  casefold = λ s. if str_eq s "ACME" then "acme" else s;
  to_text = show;
  decimal = λ s. none;
  fullmatch = λ p s. some (str_eq p s);
}

abbrev pub counting : Floats
counting = record {
  Float = ℕ;
  zero = 0;
  one = 1;
  add = λ a b. a + b;
  sub = λ a b. a - b;
  mul = λ a b. a * b;
  div = λ a b. if a == b then 1 else 0;
  neg = λ a. 0;
  log = λ a. a;
  exp = λ a. a;
  round = λ a n. a;
  le = leb;
  is_zero = λ a. a == 0;
  sequence_ratio = λ s t. if str_eq s t then 1 else 0;
}

abbrev pub tax_id : Identifier
tax_id = record { field = "tax_id"; namespace = "tax"; hard_conflict = true }
