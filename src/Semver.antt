-- ===== src/Semver.antt =====
-- github.com/blang/semver/v4, as far as the program uses it: a parameter of the models.
use Prim.Native.Nat.{Ordering}
use cloud_profile_sync.Common.{String, ◌≡◌, ◌≢◌}
use cloud_profile_sync.Common.Order.{IsOrder}
use cloud_profile_sync.Common.Result.{Result, ok}

pub record Semver : Type 1 where
  pub Version : Type 0
  pub parse : String → Result Version
  pub parse_tolerant : String → Result Version
  pub compare : Version → Version → Ordering
  pub string : Version → String

-- Its documented behaviour: `Compare` orders versions by precedence, and what `String` prints is
-- not empty and read back by both parsers.
pub record IsSemver (S : Semver) : Type 0 where
  pub order : IsOrder S.compare
  pub parse-string : (v : S.Version) → S.parse (S.string v) ≡ ok v
  pub parse_tolerant-string : (v : S.Version) → S.parse_tolerant (S.string v) ≡ ok v
  pub string-ne-nil : (v : S.Version) → S.string v ≢ ""
