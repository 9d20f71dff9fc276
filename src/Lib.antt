-- ===== src/Lib.antt =====
-- A verification library for macloader, a guided builder of OpenCore boot media.
--
-- The program. macloader looks at the hardware of a PC, matches it with a catalogue, resolves the
-- catalogue's dependencies into a build set, builds an EFI directory, acquires Apple's Recovery image
-- and writes both to a removable medium. The modelled parts are those whose mistakes are worst:
--
-- - Dependencies.Graph: macloader/dependencies/graph.py, the dependency graph. Graph/Defs.antt has
--   add_node, has_node, get_dependencies and resolve_ordered_set; the dict is an association list,
--   the nested dfs has its path and its colours as arguments, and the two loops run on fuel: the
--   number of requests and listed dependencies for the first, the number of collected nodes for the
--   search.
-- - Removable: macloader/removable/writer.py, the guarded writer. Device.antt has RemovableDevice,
--   _assert_safe and _recheck_device; Source.antt the source directory as a listing, _source_manifest,
--   _efi_payload_digest and _copy_no_follow; Plan.antt MediaBindings, WritePlan and
--   DestructiveConfirmation; Published/Contracts.antt and Published/Checks.antt the published
--   contracts of macloader/domain/contracts.py and macloader/domain/recovery.py and their
--   reconciliation _validate_published_artifacts; Writer/Source.antt _validate_source and dry_run;
--   Writer/Steps.antt write, split where its try block begins and where the destructive call stands.
-- - Dependencies.Archive: validate_zip_archive of macloader/dependencies/archive.py. Archive/Names.antt
--   has the tests of a member's name, Archive/Check.antt the loop over the members.
-- - Configuration.Store: save and load of macloader/configuration/store.py, over the files that one
--   configuration ID has in the root, the lock file among them, with a failure of the host at any of a
--   save's operations.
-- - Compatibility.Matcher: match_model of macloader/compatibility/model_matcher.py, with the lookup by
--   machine type of macloader/database/loader.py; Matcher/Decision.antt has the decision's texts.
-- - Compatibility.Engine: CompatibilityEngine of macloader/compatibility/engine.py. Registry.antt has the
--   schemas and lookups of macloader/database, Hardware.antt the snapshot of macloader/domain/hardware.py,
--   Components.antt the _match methods, Engine/Devices.antt one section of evaluate for each kind of
--   device, Engine/Overall.antt the overall state, Engine/Evaluate.antt the report and Engine/Draft.antt
--   generate_build_plan with __post_init__ of macloader/domain/build_plan.py. The appends of a section
--   are its Findings, joined in the order of the code.
-- - Dependencies.Resolver: DependencyResolver of macloader/dependencies/resolver.py, with the catalogue of
--   macloader/domain/dependencies.py. Resolver/Requests.antt has the mapping of capabilities,
--   Resolver/Resolve.antt the checks, the call of the graph and the construction.
-- - Dependencies.Cache: CacheManager of macloader/dependencies/cache.py. Cache/Files.antt has the downloads
--   directory and _prune_cache_locked, Cache/Artifacts.antt the cache path, has_valid_artifact,
--   put_artifact and acquire_artifact, with the cache as it stands at each of its two checks.
--
-- How they interact. A computer is matched with one registered model, the engine judges its
-- devices by the policies of the registry and drafts a build plan, and the resolver turns the plan's
-- capabilities into dependencies, which the graph orders. Their
-- archives are taken from the cache and inspected before the build takes files from them; configurations are stored under a base revision.
-- The writer is given a plan that dry_run made, a confirmation that DestructiveConfirmation.issue made
-- for it, and a source directory that the build and the Recovery
-- acquisition have filled. It reads the source several times and enumerates the devices again, so the
-- model gives it one listing for each reading (the records Readings and Surroundings): nothing is assumed about what
-- other processes do in between. The calls that touch the medium are returned as a list of events.
--
-- Numbers are natural: sizes and counts are Python integers that are not negative, and times are whole
-- milliseconds. An exception is a value with its text (Removable/Outcome.antt), a text that ends in a
-- path of the host is cut before it. SHA-256, the canonical JSON digest, the JSON reader, the Recovery
-- policy, the chunklist verifier, the device enumerator, the downloader, the platform's write adapters, the reader and
-- writer of configurations and Unicode's case folding of member names are parameters. str.lower() and
-- str.upper() are those of the ASCII range.
--
-- Not modelled: the user interfaces, hardware detection and the platform adapters, which are I/O; the
-- archive extraction, the lock files of the cache, the configuration and Recovery services,
-- the EFI build and the workflow; and in the writer the disposable-image adapter and errors of the
-- operating system during the checks.
pub mod Prelude
pub mod Dependencies
pub mod Removable
pub mod Compatibility
pub mod Configuration
