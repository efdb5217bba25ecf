-- ===== src/Acme/Orders/Tests.antt =====
-- An order with a configured account whose order is refused at first, and an instance of the theorem.
-- The world of the CA is the number of orders that were asked for.
use yabber.Base.{
  ℕ, ◌+◌, ◌≡◌, refl, true, false, none, [], ◌∷◌, ◌++◌, str, bytes_eq, inr, lookup, insert, delete,
  take,
}
use yabber.Config.{AcmeConfig}
use yabber.Disk.{
  Files, write_file_atomic, create_temp, write, chmod, close, rename, remove, install,
}
use yabber.Disk.Atomic.{fresh}
use yabber.Acme.{Manager, AcmeClient, authorize, find_http01}
use yabber.Acme.Orders.{
  OrderClient, Order, Paths, State, ◌>>=◌, obtain, ensure_account, start_order, authorize_all,
  one_authorization, finalized, write_to, call, call_done, pure_call,
}
use yabber.Acme.Orders.Safety.{Harmless, obtain-Harmless}

abbrev sample_client : AcmeClient
sample_client = record {
  World = ℕ;
  get_authorization = λ url w. (
    w,
    inr (record {
      valid = false;
      challenges = record { kind = str "http-01"; token = str "t1"; url = str "/c" } ∷ [];
    }),
  );
  get_key_authorization = λ token. inr (token ++ str ".k");
  complete_challenge = λ url tokens w. (w, none);
  wait_authorization = λ url tokens w. (w, none);
}

abbrev ready : Order
ready = record {
  valid = true;
  authorizations = str "/a" ∷ [];
  finalize = str "/f";
  certificate = str "/crt";
}

abbrev sample_orders : OrderClient
sample_orders = record {
  client = sample_client;
  account_url = λ w. str "/acct";
  set_account_url = λ url w. w;
  register = λ contact w. (w, inr (str "/acct"));
  import_key = λ key w. (w, none);
  generate_key = λ w. (w, none);
  export_key = λ w. inr (str "key");
  create_order = λ host w. (w + 1, inr (str "/o", ready));
  wait_order = λ url w. (w, inr ready);
  finalize_order = λ url csr w. (w, none);
  get_certificate = λ url w. (w, inr (str "chain"));
  new_key = λ w. (w, inr (str "secret"));
  request_for = λ key host. inr host;
  key_pair = λ chain key. inr (record { not_before = 0; not_after = 9 });
  decode_account = λ text. inr (text, text);
  encode_account = λ url key. url ++ key;
  archive_suffix = λ w. str "1";
  contains = λ text part. true;
}

abbrev sample_paths : Paths
sample_paths = record {
  account = str "/d/account.json";
  cert = λ host. str "/d/" ++ (host ++ str ".crt");
  key = λ host. str "/d/" ++ (host ++ str ".key");
  temp = λ path. path ++ str ".tmp";
}

abbrev configured : AcmeConfig
configured = record {
  email = [];
  account_key = str "/k";
  account_url = [];
  directory = [];
  ca_root = [];
}

abbrev idle : Manager
idle = record { hosts = []; certs = []; failures = []; tokens = []; wake = false }

abbrev sample_files : Files
sample_files = (str "/d/account.json", record { content = str "old"; mode = 384 }) ∷ []

abbrev start : State sample_orders
start = record { manager = idle; world = 0; disk = fresh sample_files [] }

-- The certificate is obtained and stored with its key.
obtained :
    (obtain sample_orders configured sample_paths (take 1) (str "a") start).0.disk.files
    ≡ (str "/d/account.json", record { content = str "old"; mode = 384 })
      ∷ (str "/d/a.key", record { content = str "secret"; mode = 384 })
      ∷ (str "/d/a.crt", record { content = str "chain"; mode = 420 })
      ∷ []
unfolding obtain ensure_account start_order authorize_all one_authorization finalized write_to call
    call_done pure_call ◌>>=◌ authorize find_http01 write_file_atomic create_temp write chmod close
    rename remove install lookup insert delete
obtained = refl

obtain-Harmless_example :
    Harmless sample_orders configured sample_paths
      (take 1)
      start
      (obtain sample_orders configured sample_paths (take 1) (str "a") start).0
obtain-Harmless_example =
    obtain-Harmless sample_orders configured sample_paths (take 1) idle 0 sample_files [] (str "a")
      refl (λ e. cc) (λ e. cc) (λ e. cc) (λ e. cc)
