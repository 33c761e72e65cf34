-- ===== src/Tests/Shown.antt =====
-- What the Glance source shows after a schedule in which the second region answers first.
use Prim.Native.Nat.{Ordering}
use cloud_profile_sync.Common.{◌≡◌, refl, sym, String, map, arith}
use cloud_profile_sync.Common.Int.{pos}
use cloud_profile_sync.Common.Order.{compare_text_eq}
use cloud_profile_sync.Workers.Outcome.{answers_of}
use cloud_profile_sync.Glance.{compare_semver_desc}
use cloud_profile_sync.Glance.Versions.{get_versions}
use cloud_profile_sync.Glance.Same.{IsSameAnswer}
use cloud_profile_sync.Glance.Shown.{concurrent_answer}
use cloud_profile_sync.Tests.Data.{texts, texts-IsSemver, glance}
use cloud_profile_sync.Tests.Schedules.{
  authenticate, list_images, sprintf, discover, setting, both_received, to_received, goes_on,
}

same_precedence : (x y : String) → compare_semver_desc texts x y ≡ Ordering.eq → x ≡ y
unfolding compare_semver_desc
same_precedence String.[] String.[] e = refl
same_precedence String.[] (String.◌∷◌ d t) e = absurd (ground (arith, e))
same_precedence (String.◌∷◌ c s) String.[] e = absurd (ground (arith, e))
same_precedence (String.◌∷◌ c s) (String.◌∷◌ d t) e =
    sym (compare_text_eq (String.◌∷◌ d t) (String.◌∷◌ c s) e)

concurrent_answer_example :
    IsSameAnswer
      (get_versions texts glance (pos 10) (answers_of setting both_received.received))
      (get_versions texts glance (pos 10) (map discover glance.params.regions))
concurrent_answer_example =
    concurrent_answer texts texts-IsSemver glance (pos 10) sprintf authenticate list_images
      both_received to_received (refl, refl, refl, refl) goes_on
      (λ q e x y m n. same_precedence x y)
