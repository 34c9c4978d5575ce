-- ===== src/Domain/Timestamp.antt =====
-- Python's `datetime` values as the program uses them. An instant counts microseconds from
-- 0001-01-01T00:00:00Z, the least instant that a UTC datetime can hold.
use trackrelay.Prelude.{
  ℤ, nat_equality, string_equality, option_equality, pair_equality, ℕ, ◌≡◌, refl, pos,
}

-- An aware datetime: its instant, and its UTC offset in minutes. Python compares two of them by
-- their instants.
pub record AwareDatetime : Type 0 where
  pub instant : ℕ
  pub utc_offset : ℤ

-- What a database column gives back: SQLite drops the zone of a stored UTC timestamp.
pub data DatabaseDatetime : Type 0 where
  naive : ℕ → DatabaseDatetime
  aware : AwareDatetime → DatabaseDatetime

-- `_aware` of services/downstream_worker.py: a naive timestamp is read as UTC.
unfoldable pub as_aware : DatabaseDatetime → AwareDatetime
as_aware (naive n) = record { instant = n; utc_offset = pos 0 }
as_aware (aware t) = t

abbrev pub instant_of : DatabaseDatetime → ℕ
unfolding as_aware
instant_of t = (as_aware t).instant

-- What the database returns for a timestamp column after an aware datetime was written to it.
pub record TimestampColumn : Type 0 where
  pub stored : AwareDatetime → DatabaseDatetime

-- A naive timestamp has the instant that it was stored with.
pub instant_of-naive : (n : ℕ) → instant_of (naive n) ≡ n
unfolding instant_of
instant_of-naive n = refl
