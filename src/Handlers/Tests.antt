-- ===== src/Handlers/Tests.antt =====
-- A root with an environment file, and an instance of the theorem on it.
use yabber.Base.{
  ◌≡◌, refl, true, false, if◌then◌else◌, inl, inr, ◌++◌, Bytes, str, bytes_eq, ◌==◌, any, split,
  has_prefix, cut_prefix,
}
use yabber.Handlers.{FileSystem, not_exist, is_hidden, open_public}
use yabber.Handlers.Opening.{Public, open_public-Public}

abbrev sample_fs : FileSystem
sample_fs = record {
  File = Bytes;
  stat_root = λ root. inr true;
  open_file =
      λ root name. if name == str "/docs/index.html" then inl not_exist else inr (root ++ name);
  is_dir = λ file. inr (file == str "/srv/docs");
  join_path = λ dir name. dir ++ (str "/" ++ name);
}

-- The environment file and the directory without an index are hidden.
hidden_names :
    (open_public sample_fs (str "/srv") false (str "/app/.env") ≡ inl not_exist)
    × (open_public sample_fs (str "/srv") false (str "/docs") ≡ inl not_exist)
unfolding open_public any is_hidden split has_prefix cut_prefix
hidden_names = (refl, refl)

open_public-Public_example :
    Public sample_fs (str "/srv") false (str "/.well-known/x") (str "/srv/.well-known/x")
unfolding open_public any is_hidden split has_prefix cut_prefix
open_public-Public_example =
    open_public-Public sample_fs (str "/srv") false (str "/.well-known/x")
      (str "/srv/.well-known/x") refl
