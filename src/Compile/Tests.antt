-- ===== src/Compile/Tests.antt =====
-- The default listeners, and an instance of the theorem on them.
use yabber.Base.{refl, true, false, [], ◌∷◌, str, lookup, insert, has_suffix, bytes_eq}
use yabber.Config.Tests.{sample_config}
use yabber.Compile.{
  default_listeners, spec_for, listeners, check_listener, listeners_from, listener_at,
}
use yabber.Compile.Listeners.{named, Describes, listeners-Describes}

listeners-Describes_example :
    Describes
      (λ _. true)
      sample_config.server
      771
      (named (str "https") (default_listeners true))
      (lookup (str "https") (
        (str "http", spec_for sample_config.server 771 (listener_at (str "http") (str ":80") false))
        ∷ (
          str "https",
          spec_for sample_config.server 771 (listener_at (str "https") (str ":443") true),
        )
        ∷ []))
unfolding listeners listeners_from check_listener default_listeners lookup insert has_suffix
listeners-Describes_example =
    listeners-Describes (λ _. true) sample_config.server 771 (default_listeners true) _
      (str "https") refl
