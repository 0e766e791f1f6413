-- ===== src/Inet.antt =====
-- The platform's `inet_pton` and `inet_ntop` are not the repository's code: the allocator, which calls
-- them, takes this record. An address is a number below 2 ^ 32 in host
-- byte order, so that `ntohl` and `htonl` are inside the two functions.
pub mod Dotted
use natt.Prelude.{ℕ, ◌<◌, ◌^◌, ◌≡◌, ◌≢◌, Text, Option, some, Lacks, []}

pub record Inet : Type 0 where
  -- `none` is a text that is no dotted address.
  pub pton : Text → Option ℕ
  pub ntop : ℕ → Text

-- What POSIX says of the two functions, as far as the allocator relies on it: a text is read
-- as a 32-bit address, printing an address and reading it gives it back, and what is printed is not empty and holds digits
-- and dots, so no slash.
pub record IsInet (net : Inet) : Type 0 where
  pub pton-lt : (s : Text) (a : ℕ) → net.pton s ≡ some a → a < 2 ^ 32
  pub pton-ntop : (a : ℕ) → a < 2 ^ 32 → net.pton (net.ntop a) ≡ some a
  pub ntop-ne-nil : (a : ℕ) → net.ntop a ≢ []
  pub ntop_no_slash : (a : ℕ) → a < 2 ^ 32 → Lacks b'/' (net.ntop a)
