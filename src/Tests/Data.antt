-- ===== src/Tests/Data.antt =====
-- The test data of the modules beside this one: a job, a cipher, an item, an empty catalog.
use m365_backup.Base.{
  ℕ, ◌+◌, ◌%◌, ◌≡◌, ◌<◌, refl, Bool, true, false, Option, none, some, List, [], ◌∷◌, ◌++◌, Text,
  codes, arith, length, ltb, if◌then◌else◌,
}
use m365_backup.Jobs.{Job, running}
use m365_backup.Runner.{World}
use m365_backup.Blobs.{Crypto, valid_hash, read_file}
use m365_backup.Blobs.RoundTrip.{IsCrypto, IsSound, NoCollision}
use m365_backup.Catalog.Item.{Item}
use m365_backup.Catalog.Store.{Store}

abbrev pub tenant : Text
tenant = codes "t1"

abbrev pub exchange : Text
exchange = codes "exchange"

abbrev pub job_1 : Job
job_1 = record {
  id = codes "j1";
  tenant_id = tenant;
  schedule_id = [];
  service = exchange;
  job_type = codes "delta";
  status = running;
  started_at = 1;
  finished_at = 0;
  items_new = 0;
  items_total = 0;
  bytes_transferred = 0;
  error_message = [];
  snapshot_id = [];
  progress_pct = 5;
  progress_message = [];
  params = [];
  created_at = 1;
}

abbrev pub world_of : List Job → World
world_of jobs = record {
  jobs = jobs;
  tokens = [];
  cancels = codes "j1" ∷ [];
  signalled = [];
  spawned = [];
  staging = codes "j1" ∷ [];
  logs = [];
  events = [];
}

-- Sixty-three zeros and the last digit of the length stand for a digest.
abbrev digest : Text → Text
digest p =
    codes "000000000000000000000000000000000000000000000000000000000000000"
    ++ (48 + length p % 10) ∷ []

-- The cipher puts the nonce before the text, and checks nothing.
abbrev pub open_cipher : Crypto
open_cipher = record {
  sha256_hex = digest;
  nonce_size = 2;
  seal = λ nonce p. p;
  unseal = λ nonce p. some p;
}

digit_lem : (n : ℕ) → n % 10 < 10
digit_lem n = omega arith

pub open_cipher-IsCrypto : IsCrypto open_cipher
unfolding valid_hash m365_backup.Base.all
open_cipher-IsCrypto = record {
  nonce_pos = omega arith;
  hex = λ p. ground (arith, digit_lem (length p));
  opens = λ nonce p. refl;
}

pub no_files-IsSound : IsSound open_cipher []
unfolding read_file m365_backup.Base.find_if
no_files-IsSound h raw r full = absurd (cc)

pub no_files-NoCollision : (p : Text) → NoCollision open_cipher [] p
unfolding read_file m365_backup.Base.find_if
no_files-NoCollision p h raw q r opened e = absurd (cc)

abbrev pub item_1 : Item
item_1 = record {
  service = exchange;
  graph_item_id = codes "AAMk1";
  mailbox = codes "a@b.c";
  parent_path = codes "Inbox";
  name = codes "m.eml";
  blob_hash = [];
  size = 0;
  mtime = 0;
  content_type = [];
  subject = codes "Hello";
  from_addr = [];
  deleted = false;
}

-- A catalog of a job that tracks changes, or of a full one.
abbrev pub store_of : Bool → List Item → Store
store_of track items = record {
  items = items;
  changes = [];
  snapshots = [];
  manifests = [];
  blobs = [];
  pending = [];
  seen = λ s. none;
  skip_rematch = false;
  track_changes = track;
}
