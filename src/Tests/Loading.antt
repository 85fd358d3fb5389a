-- ===== src/Tests/Loading.antt =====
-- The URL of the mapping, its download, and the loader.
use sonarr_anime_bridge.Prelude.{
  ℕ, ◌≡◌, ◌≤◌, ◌↔◌, refl, true, false, List, [], ◌∷◌, length, none, some, All,
}
use sonarr_anime_bridge.Show.{equal_fold}
use sonarr_anime_bridge.Mapping.Url.{
  Setting, validate_remote_url, insecure_loopback_allowed, Ip, round_trip, check_url, allowed_host,
}
use sonarr_anime_bridge.Mapping.Url.Laws.{github, ips_of, IsReachable, round_trip_iff}
use sonarr_anime_bridge.Mapping.Source.{
  Metadata, zero_metadata, Codecs, Response, metadata_of, do_mapping_request, fetch,
  max_compressed_mapping_bytes,
}
use sonarr_anime_bridge.Mapping.Source.Laws.{IsChecked, fetch_lem}
use sonarr_anime_bridge.Mapping.Loader.{FileReads, Answers}
use sonarr_anime_bridge.Mapping.Loader.Load.{Task, load}
use sonarr_anime_bridge.Mapping.Loader.Outcome.{IsKept, load-IsKept}
use sonarr_anime_bridge.Tests.Data.{mapping}

-- Every text is the URL of the default, and no opt-in is set.
abbrev pub setting : Setting
setting = record { parse = λ raw. some github; to_lower = λ s. s; allow_insecure = "" }

abbrev public : Ip
public = record {
  is_loopback = false;
  is_private = false;
  is_link_local_unicast = false;
  is_link_local_multicast = false;
  is_unspecified = false;
}

round_trip_iff_example : (round_trip setting github none (some (public ∷ [])) ≡ none) ↔ (
    (ips : List Ip) × (ips_of none (some (public ∷ [])) ≡ some ips)
    × All (IsReachable setting github) ips)
round_trip_iff_example = round_trip_iff setting github none (some (public ∷ []))

-- Checksums and digests are the bytes themselves.
abbrev pub codecs : Codecs
codecs = record {
  md5_sum = λ b. b;
  sha256_sum = λ b. b;
  to_hex = λ b. "0a";
  from_base64 = λ s. some (10 ∷ []);
  fold = λ c. c;
  trim_space = λ s. s;
}

abbrev pub response : Response
response = record {
  status = 200;
  etag_header = "v3";
  last_modified_header = "";
  md5_header = "Cg==";
  body = 10 ∷ [];
  breaks_off = false;
}

abbrev fetched_metadata : Metadata
fetched_metadata = record (metadata_of "https://github.com/m" 7 response) { md5 = "0a" }

fetch_lem_example :
    (r : Response) × (some response ≡ some r)
    × (validate_remote_url setting "https://github.com/m" ≡ none)
    × (r.status ≡ 200)
    × (r.breaks_off ≡ false)
    × ((10 ∷ []) ≡ r.body)
    × (length {A = ℕ} (10 ∷ []) ≤ max_compressed_mapping_bytes)
    × (◌≡◌ {A = Metadata}
        (record fetched_metadata { md5 = "" })
        (metadata_of "https://github.com/m" 7 r))
    × IsChecked codecs r.md5_header (10 ∷ []) fetched_metadata
fetch_lem_example =
    fetch_lem codecs setting "https://github.com/m" 7 (some response) (10 ∷ []) fetched_metadata (
      unfold fetch do_mapping_request validate_remote_url check_url allowed_host metadata_of
        insecure_loopback_allowed equal_fold in
      refl)

abbrev pub unread : FileReads
unread = record { inspected = none; parsed = none }

abbrev pub answers : Answers
answers = record {
  sidecar = zero_metadata;
  have_cache = false;
  now = 7;
  head_answer = none;
  etag_reads = unread;
  get_answer = some response;
  fallback_reads = unread;
  hashed = none;
  md5_reads = unread;
  written = true;
  ends_at_start = false;
  ends_before_fetch = false;
  ends_in_fetch = false;
  ends_after_fetch = false;
  ends_after_hash = false;
  ends_before_parse = false;
  ends_in_parse = false;
  ends_after_parse = false;
  ends_at_last = false;
}

abbrev pub task : Task
task = record {
  env = setting;
  codecs = codecs;
  parse = λ bytes. some mapping;
  loader = record { state = none };
  path = "/data/m";
  url = "https://github.com/m";
}

load-IsKept_example : IsKept some task answers (load some task answers).0 (load some task answers).1
load-IsKept_example = load-IsKept some task answers tt
