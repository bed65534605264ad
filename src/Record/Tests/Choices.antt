-- ===== src/Record/Tests/Choices.antt =====
-- Runs of internal/record/validator.go, Select, and of the names of internal/record/record.go.
use freedom_names.Common.{
  true, false, ℕ, ◌≡◌, refl, List, [], ◌∷◌, ◌++◌, Option, none, some, arith, get_elem?, suc, zero,
}
use freedom_names.Record.{FnRecord, int_less, int_equal}
use freedom_names.Record.Ip.{split}
use freedom_names.Record.Names.{
  lower_byte, to_lower, trim_dot, canonical_name, join, split_last, parse_name, has_suffix,
  dht_key_for_name, pub_key_id, dht_key, full_name, is_pub_key_id, is_bare_name,
}
use freedom_names.Record.Names.Split.{dot}
use freedom_names.Record.Names.RoundTrip.{IsAscii, full_name-parse_name}
use freedom_names.Record.Validator.{
  selected, refused, no_valid_values, better_record, weigh, select_from, select,
}
use freedom_names.Record.Validator.Select.{Outcome, SameValues, select-Outcome, select-agree}
use freedom_names.Record.Tests.{toy_with, toy, published, site, key_id}
use freedom_names.Common.Bytes.{bytes_less, bytes_equal}

-- A value is its sequence number, and anything that follows; an empty value is no record.
abbrev numbered : List ℕ → Option FnRecord
numbered [] = none
numbered (n ∷ rest) = some (record published { seq = n })

abbrev votes : List (List ℕ)
votes = (1 ∷ []) ∷ [] ∷ (3 ∷ []) ∷ (3 ∷ 9 ∷ []) ∷ (2 ∷ []) ∷ []

abbrev shuffled : List (List ℕ)
shuffled = (3 ∷ 9 ∷ []) ∷ (2 ∷ []) ∷ (3 ∷ []) ∷ [] ∷ (1 ∷ []) ∷ []

votes_best : select (toy_with numbered) votes ≡ selected 3
unfolding select select_from weigh better_record bytes_less int_equal int_less
votes_best = refl

shuffled_best : select (toy_with numbered) shuffled ≡ selected 0
unfolding select select_from weigh better_record bytes_less int_equal int_less
shuffled_best = refl

none_valid : select (toy_with numbered) ([] ∷ []) ≡ refused no_valid_values
unfolding select select_from weigh
none_valid = refl

select-Outcome_example : Outcome (toy_with numbered) votes (select (toy_with numbered) votes)
select-Outcome_example = select-Outcome (toy_with numbered) votes

same_votes : SameValues votes shuffled
same_votes v = (there, back)
  where
    there : (i : ℕ) × (get_elem? votes i ≡ some v) → (i : ℕ) × (get_elem? shuffled i ≡ some v)
    there (zero, e) = (4, e)
    there (suc zero, e) = (3, e)
    there (suc (suc zero), e) = (2, e)
    there (suc (suc (suc zero)), e) = (0, e)
    there (suc (suc (suc (suc zero))), e) = (1, e)
    there (suc (suc (suc (suc (suc i)))), e) = absurd cc

    back : (i : ℕ) × (get_elem? shuffled i ≡ some v) → (i : ℕ) × (get_elem? votes i ≡ some v)
    back (zero, e) = (3, e)
    back (suc zero, e) = (4, e)
    back (suc (suc zero), e) = (2, e)
    back (suc (suc (suc zero)), e) = (1, e)
    back (suc (suc (suc (suc zero))), e) = (0, e)
    back (suc (suc (suc (suc (suc i)))), e) = absurd cc

select-agree_example : get_elem? votes 3 ≡ get_elem? shuffled 0
select-agree_example =
    select-agree (toy_with numbered) votes shuffled 3 0 same_votes votes_best shuffled_best

-- SITE.k1.FN
abbrev spelled : List ℕ
spelled = b'S' ∷ b'I' ∷ b'T' ∷ b'E' ∷ b'.' ∷ b'k' ∷ b'1' ∷ b'.' ∷ b'F' ∷ b'N' ∷ []

abbrev full : List ℕ
full = b's' ∷ b'i' ∷ b't' ∷ b'e' ∷ b'.' ∷ b'k' ∷ b'1' ∷ b'.' ∷ b'f' ∷ b'n' ∷ []

published-full : full_name toy published ≡ some full
unfolding full_name pub_key_id
published-full = refl

published_id : pub_key_id toy published.pub_key ≡ some key_id
unfolding pub_key_id
published_id = refl

spelled_lower : to_lower spelled ≡ to_lower full
unfolding to_lower lower_byte
spelled_lower = refl

id_lower : to_lower key_id ≡ key_id
unfolding to_lower lower_byte
id_lower = refl

full-IsAscii : IsAscii full
full-IsAscii = (
  omega arith,
  (
    omega arith,
    (
      omega arith,
      (
        omega arith,
        (
          omega arith,
          (omega arith, (omega arith, (omega arith, (omega arith, (omega arith, tt))))),
        ),
      ),
    ),
  ),
)

full_name-parse_name_example :
    IsAscii spelled
    × (parse_name spelled ≡ some (to_lower site, key_id))
    × (parse_name (spelled ++ (dot ∷ [])) ≡ some (to_lower site, key_id))
    × (dht_key_for_name spelled ≡ dht_key toy published)
full_name-parse_name_example =
    full_name-parse_name toy published full spelled key_id published-full full-IsAscii published_id
      spelled_lower id_lower (λ e. absurd (omega arith), (λ e. absurd (omega arith), tt))
      (omega arith) (omega arith)

not_bare : is_bare_name toy full ≡ false
unfolding is_bare_name is_pub_key_id has_suffix parse_name canonical_name to_lower lower_byte
    trim_dot split split_last join bytes_equal
not_bare = refl

-- site.fn
bare : is_bare_name toy (b's' ∷ b'i' ∷ b't' ∷ b'e' ∷ b'.' ∷ b'f' ∷ b'n' ∷ []) ≡ true
unfolding is_bare_name is_pub_key_id has_suffix parse_name canonical_name to_lower lower_byte
    trim_dot split split_last join bytes_equal
bare = refl
