-- ===== src/Sentinel/Settings/Outage.antt =====
-- What a sentinel does with its settings and their cache while the control plane gives it no policy.
use cold_harbour.Common.{ℕ, ◌≡◌, ◌≢◌, Option, some, [], Text}
use cold_harbour.Policy.{Doc}
use cold_harbour.Policy.Validation.{}
use cold_harbour.Sentinel.Settings.{
  MaskSettings, settings_from, PolicyResponse, Json, fetched, not_fetched, Write, fetch_policy,
  decoded_cache, load_initial, poll_once,
}

-- A sentinel while the control plane gives it no document: polls that fetch none, and restarts, with
-- whatever policy file, whose request fetches none.
pub data Outage (j : Json) (url dir : Text) (st : MaskSettings) (disk : Option Text)
    : MaskSettings → Option Text → Type 0 where
  cut_off : Outage j url dir st disk st disk
  poll_failed :
      {st1 : MaskSettings} {disk1 : Option Text}
      → Outage j url dir st disk st1 disk1
      → (r : Option PolicyResponse) (w : Write j)
      → ((doc : Doc) (etag : Text) → fetch_policy j st1.etag r ≢ fetched doc etag)
      → Outage j url dir st disk (poll_once j dir r w st1 disk1).0 (poll_once j dir r w st1 disk1).1
  restarted :
      {st1 : MaskSettings} {disk1 : Option Text}
      → Outage j url dir st disk st1 disk1
      → (contents : Option (Option Text)) (r : Option PolicyResponse) (w : Write j) (etag : Text)
        (doc : Doc) (disk2 : Option Text)
      → fetch_policy j [] r ≡ not_fetched
      → load_initial j url dir contents r w disk1 ≡ (some (etag, doc), disk2)
      → Outage j url dir st disk (settings_from doc etag) disk2

module _ (j : Json) (url dir : Text) (c b : ℕ) (etag : Text) (doc : Doc) where
  -- The document is in force, and the cache holds it.
  abbrev Held : MaskSettings → Option Text → Type 0
  Held st disk = (st ≡ settings_from doc etag) × (decoded_cache j disk ≡ some (etag, doc))
