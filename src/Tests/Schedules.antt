-- ===== src/Tests/Schedules.antt =====
-- Schedules of goroutines.
use cloud_profile_sync.Common.{
  subst, ◌*◌, ◌≤◌, ◌≡◌, refl, ◌⊎◌, String, string_eq, nat_eq, none, true, List, [], ◌∷◌, map,
  length, All, ◌==◌, if◌then◌else◌, arith,
}
use cloud_profile_sync.Common.Result.{Result, ok, err, is_kind}
use cloud_profile_sync.Source.{SourceImage}
use cloud_profile_sync.Workers.{
  Message, Pool, Setting, started, Work, Step, Run, acquire, finish, send, receive, hand_over, work,
  take, here, next,
}
use cloud_profile_sync.Workers.Outcome.{IsDone, answers_of}
use cloud_profile_sync.Workers.Account.{calls_bounded}
use cloud_profile_sync.Workers.Progress.{schedules_end}
use cloud_profile_sync.Glance.{new_glance}
use cloud_profile_sync.Glance.Versions.{Gathered, gather, querying}
use cloud_profile_sync.Glance.Gather.{GoesOn}
use cloud_profile_sync.Glance.Order.{
  concurrent_regions, no_goroutine_waits, IsSameGathered, nothing,
}
use cloud_profile_sync.Common.{keep_some, sym, ◌∙◌}
use cloud_profile_sync.Common.Dict.{lookup}
use cloud_profile_sync.Common.Text.{replace_all}
use cloud_profile_sync.Common.Result.{Error}
use cloud_profile_sync.Common.Sort.Unique.{AreSeparate}
use mathlib.Core.Logic.Or
use mathlib.Core.List.{Mem, eq-or-mem_of_mem-cons, not-mem-nil}
use cloud_profile_sync.OciSource as OciSource
use cloud_profile_sync.OciSource.{
  is_context_error, Annotations, Oci, CollectedImage, fetching, listed, join_errors,
  apply_image_filter, fetch_image, collect_image, supports_in_place_update, image_capabilities,
}
use cloud_profile_sync.OciSource.Laws.{collected_items}
use cloud_profile_sync.OciSource.Order.{concurrent_as_sequential}
use cloud_profile_sync.Updater.{
  fetch, compare_images, validate_image_versions, validate_version, normalize_clean,
}
use cloud_profile_sync.Updater.Fetch.{compare_images-IsOrder}
use cloud_profile_sync.Common.{◌≢◌, ap, false}
use cloud_profile_sync.Common.Int.{pos}
use cloud_profile_sync.Openstack.{RegionIdMapping, merge_regions}
use cloud_profile_sync.Openstack.Order.{AreOnce}
use cloud_profile_sync.Glance.{AuthOptions, GlanceImage, discover_region}
use cloud_profile_sync.Glance.Gather.{regions_of}
use cloud_profile_sync.Glance.Written as Written
use cloud_profile_sync.Glance.Written.{concurrent_entries}
use cloud_profile_sync.Tests.Data.{SourceImage-IsSet, texts, updater, image, broken, glance, params}

-- One of the two regions cannot be authenticated with.
abbrev pub authenticate : String → AuthOptions → Result String
authenticate url options = if url == "eu" then ok url else err broken

abbrev pub list_images : String → String → Result (List GlanceImage)
list_images client region =
    ok (record { name = "linux-2-a"; is_active = true; created_at = pos 1; id = "id" } ∷ [])

abbrev pub sprintf : String → String → String
sprintf format region = region

abbrev pub discover : String → Result (List SourceImage)
discover = Written.discover texts glance sprintf authenticate list_images

abbrev Answer : Type 0
Answer = Result (List SourceImage)

abbrev pub setting : Setting String Answer
setting = querying glance discover

abbrev jobs : List String
jobs = "eu" ∷ "us" ∷ []

abbrev message : String → Message String Answer
message region = record { job = region; answer = discover region; holds = true }

-- The second region is the first to answer.
abbrev both_running : Pool String Answer
both_running = record {
  waiting = [];
  running = "eu" ∷ "us" ∷ [];
  sending = [];
  buffer = [];
  received = [];
}

abbrev one_sent : Pool String Answer
one_sent = record {
  waiting = [];
  running = "eu" ∷ [];
  sending = [];
  buffer = message "us" ∷ [];
  received = [];
}

abbrev pub both_received : Pool String Answer
both_received = record {
  waiting = [];
  running = [];
  sending = [];
  buffer = [];
  received = message "us" ∷ message "eu" ∷ [];
}

to_running : Run setting 2 (started jobs) both_running
unfolding querying
to_running =
    next (next here (work (acquire ("eu" ∷ []) [] "us" refl (omega arith) refl)))
      (work (acquire [] [] "eu" refl (omega arith) refl))

to_sent : Run setting 4 (started jobs) one_sent
unfolding querying
to_sent =
    next (next to_running (work (finish ("eu" ∷ []) [] "us" refl refl)))
      (work (send [] [] (message "us") refl (omega arith) refl))

pub to_received : Run setting 7 (started jobs) both_received
unfolding querying
to_received =
    next
      (next (next to_sent (take (receive (message "us") [] refl refl)))
        (work (finish [] [] "eu" refl refl)))
      (take (hand_over [] [] (message "eu") refl refl refl))

schedules_end_example :
    (4 ≤ 4 * length jobs)
    × (((t : Pool String Answer) × Step setting one_sent t) ⊎ IsDone setting one_sent)
unfolding querying
schedules_end_example = schedules_end setting (omega arith) jobs one_sent to_sent

calls_bounded_example : length both_running.running ≤ setting.parallel
calls_bounded_example = calls_bounded setting jobs both_running to_running

pub goes_on : All GoesOn (answers_of setting both_received.received)
unfolding querying string_eq is_kind discover_region
goes_on = (refl, (tt, tt))

concurrent_regions_run :
    (c : Gathered) × (q : Gathered) × (gather nothing (answers_of setting both_received.received)
      ≡ ok c)
    × (gather nothing (map discover glance.params.regions) ≡ ok q)
    × IsSameGathered c q
concurrent_regions_run =
    concurrent_regions glance discover both_received to_received (refl, refl, refl, refl) goes_on

eu_ne_us : ◌≢◌ {A = String} "eu" "us"
unfolding string_eq
eu_ne_us h = let e : false ≡ true = ap (λ t. t == "us") h in absurd (ground arith)

concurrent_entries_example :
    (c : Gathered) × (q : Gathered) × (gather nothing (answers_of setting both_received.received)
      ≡ ok c)
    × (gather nothing (map discover glance.params.regions) ≡ ok q)
    × ((k : String) (old : List RegionIdMapping)
        → AreOnce old
        → merge_regions (regions_of k c.images) old ≡ merge_regions (regions_of k q.images) old)
concurrent_entries_example =
    concurrent_entries texts glance sprintf authenticate list_images (λ n. ground (arith, eu_ne_us))
      both_received to_received (refl, refl, refl, refl) goes_on

made : new_glance params ≡ ok glance
unfolding new_glance string_eq nat_eq
made = refl

no_goroutine_waits_example :
    ((t : Pool String Answer) × Work setting one_sent t)
    ⊎ ((one_sent.waiting ≡ []) × (one_sent.running ≡ []) × (one_sent.sending ≡ []))
no_goroutine_waits_example = no_goroutine_waits glance discover params made one_sent to_sent

abbrev decode : String → Result Annotations
decode raw = if raw == "2" then ok (("architecture", "amd64") ∷ []) else err broken

-- A repository with two tags; the manifest of the second cannot be read.
abbrev pub registry : Oci
registry = record {
  repo = record { tags = ok ("2" ∷ "3" ∷ []); fetch_reference = λ tag. ok tag; decode = decode };
  parallel = 2;
  feature_to_capability_map = [];
  image_filter = none;
}

abbrev fetched : String → Message String (Result CollectedImage)
fetched tag = record { job = tag; answer = (fetching registry).work tag; holds = true }

abbrev fetches : Pool String (Result CollectedImage)
fetches = record {
  waiting = [];
  running = [];
  sending = [];
  buffer = [];
  received = fetched "3" ∷ fetched "2" ∷ [];
}

to_fetched : Run (fetching registry) 6 (started ("2" ∷ "3" ∷ [])) fetches
unfolding fetching
to_fetched =
    next
      (next
        (next
          (next
            (next (next here (work (acquire [] ("3" ∷ []) "2" refl (omega arith) refl)))
              (work (acquire [] [] "3" refl (omega arith) refl)))
            (work (finish [] ("2" ∷ []) "3" refl refl)))
          (take (hand_over [] [] (fetched "3") refl refl refl)))
        (work (finish [] [] "2" refl refl)))
      (take (hand_over [] [] (fetched "2") refl refl refl))

abbrev answered : Result (List SourceImage)
answered = OciSource.get_versions none (answers_of (fetching registry) fetches.received)

alone : (a z : SourceImage) → Mem z (a ∷ []) → z ≡ a
alone a z m =
    let prop : IsProp (z ≡ a) = SourceImage-IsSet z a in
    Or.elim prop (eq-or-mem_of_mem-cons m) (λ e. e) (λ k. absurd (not-mem-nil k))

pub only_one :
    (l : List SourceImage) (a : SourceImage)
    → l ≡ a ∷ []
    → AreSeparate compare_images compare_images-IsOrder l
only_one l a e x y m n _ = alone a x (subst (Mem x) e m) ∙ sym (alone a y (subst (Mem y) e n))

abbrev pub single : SourceImage
single = record (image "2" "") { capabilities = none; regions = [] }

pub listing :
    validate_image_versions texts
      (apply_image_filter none (collected_items (map (fetching registry).work ("2" ∷ "3" ∷ []))))
    ≡ single ∷ []
unfolding validate_image_versions validate_version normalize_clean keep_some fetching fetch_image
    collect_image lookup string_eq nat_eq replace_all collected_items apply_image_filter
    supports_in_place_update image_capabilities
listing = refl

concurrent_as_sequential_example :
    ((first : Error) × (others : List Error) × (answered ≡ err (join_errors first others))
      × All (λ e. is_context_error e ≡ true) (first ∷ others))
    ⊎ (fetch texts (record updater { source = answered })
        ≡ fetch texts (record updater {
          source = OciSource.get_versions none (map (fetching registry).work ("2" ∷ "3" ∷ []));
        }))
concurrent_as_sequential_example =
    concurrent_as_sequential texts updater registry ("2" ∷ "3" ∷ []) refl
      (only_one _ single listing) answered
      (listed ("2" ∷ "3" ∷ []) fetches refl to_fetched (refl, refl, refl, refl) refl)
