-- ===== src/Lib.antt =====
-- A model of cloud-profile-sync, a Kubernetes controller that keeps Gardener CloudProfiles up to date,
-- and theorems about it.
--
-- The program reads a custom resource, the ManagedCloudProfile. For each of its machine image updates
-- it gets versions from a source (an OCI registry or Glance), drops the collectable ones, merges the
-- rest into the list of images and lets a provider (Ironcore or OpenStack) write its own part of the
-- configuration. It gets Kubernetes versions from a landscape repository, for the lowest Gardener
-- version of the shoots. It then writes the CloudProfile, and the outcome as a condition of the
-- ManagedCloudProfile.
--
-- Which file models which part:
--   Capabilities        cloudprofilesync/ossync/capabilities.go
--   Source, Updater     cloudprofilesync/ossync/os_image_updater.go: `validateImageVersions` is
--                       `validate_image_versions`; `Fetch` and `Apply` are `fetch` and `apply`; the
--                       list of versions that `Apply` changes in place is `Versions`, with its index
--   OciRepo             cloudprofilesync/ocirepo/ocirepo.go
--   OciSource           cloudprofilesync/ossync/source/oci/os_source.go
--   Glance              cloudprofilesync/ossync/source/glance/os_source.go: `GetVersions` is
--                       `get_versions` of Glance/Versions, behind the loop that starts goroutines;
--                       Glance/Shown compares a schedule with one region after the other, and
--                       Glance/Client has the two functions that are called by default
--   Workers             the goroutines of the two `GetVersions` with their semaphore and channel: a
--                       step relation on the jobs that wait, run, send, and have been received
--   Openstack, Ironcore cloudprofilesync/ossync/provider: `Configure` is `configure`
--   Keppel              cloudprofilesync/ossync/gc/gc.go
--   Collection          controllers/garbage_collection.go: `keep`, `buildGCFilter`;
--                       Collection/Aged follows what is collected back to Keppel's answer
--   Kubernetes          cloudprofilesync/k8ssync/k8s_image_updater.go
--   Landscape           cloudprofilesync/k8ssync/source/landscape/landscape_source.go
--   Api                 api/v1alpha1/managedcloudprofile.go, the types
--   Controllers         controllers/cloud_profile.go, cloud_profile_helpers.go and
--                       managedcloudprofile_controller.go: Prepare computes images and versions,
--                       Expiration carries dates over, Shoots finds the Gardener version, Status has
--                       the conditions, Reconcile has `Reconcile` and `reconcileCloudProfile`,
--                       functions on the stored CloudProfile and status, with sequences of them in
--                       Reconcile/History, and Defaults has what `SetupWithManager` chooses;
--                       Prepare/Referenced, Reconcile/Referenced and Reconcile/Written follow a
--                       version that a shoot runs from the source to the CloudProfile; Sharing has
--                       `deepCopyMachineImages` and the writes of `carryExpirationDates` on a store
--                       of versions by address; Scheduled is a reconciliation whose sources run
--                       their goroutines
--   Start               main.go and api/v1alpha1/groupversion_info.go
--   Common              what the parts share: Go's results and errors, maps as association lists,
--                       texts and sorting
--   Indexed, Permuted   lists with an index by key, and loops over a list in another order
--   Gardener, Semver    what other code gives: Gardener's types with the fields that are used, and
--                       the semver library with its documented laws
--   Tests               concrete inputs
-- A module below one of these with a name such as Laws holds theorems.
--
-- Conventions. An error is a value with its format text, its arguments and what it wraps. A pointer is
-- an Option; a map that may be nil is an Option of a map; a set is the list of what was added to it.
-- A loop over a map or a channel takes its elements as a list, in any order. Numbers have no bound,
-- but for the sum in the slice of Glance's versions, which is taken in a 64-bit `int`. Recursion is
-- structural everywhere, so no fuel is needed. The sort is stable insertion; Go's is not stable, so the
-- two may differ where elements compare as equal.
--
-- In a schedule any goroutine may make the next step.
--
-- Parameters are the API server, the registry, gophercloud's calls, HTTP requests, the clock, the
-- decoders of JSON, YAML and tar, semver, and for the start flags, environment and manager.
-- `CreateOrPatch`, `SetControllerReference`, Gardener's defaults and `DeepCopyInto` of its types
-- have their documented behaviour as named hypotheses where a theorem needs it. Values stand for
-- objects, but for the versions of images in Sharing. `Apply` clones the list of images it starts from
-- but not their versions, and so writes those in place; as nothing reads them through the old list
-- afterwards, values are enough there.
--
-- A status patch goes from the status that was read to the new one, and is applied to the stored one,
-- which may be another; a theorem that needs a read of the stored one says so. A `CreateOrPatch` that
-- fails leaves what the parameter `left_by_error` says.
--
-- Not modelled are the watches that `SetupWithManager` registers, and logging. The copies in
-- api/v1alpha1/zz_generated.deepcopy.go are generated; where they are called a value is its own copy.
pub mod Common
pub mod Indexed
pub mod Permuted
pub mod Gardener
pub mod Semver
pub mod Source
pub mod Capabilities
pub mod Updater
pub mod Api
pub mod Keppel
pub mod Collection
pub mod Kubernetes
pub mod Openstack
pub mod Ironcore
pub mod OciRepo
pub mod Workers
pub mod OciSource
pub mod Glance
pub mod Landscape
pub mod Controllers
pub mod Start
pub mod Tests
