-- ===== src/Cmd/Config/Layers.antt =====
-- What the flags and the file of cmd/photinus/config.go come to.
use photinus.Prelude.{◌≡◌, refl, String, Bool, true, Option, none, some, List, contains, All, ap}
use photinus.Cmd.Config.{FileConfig, Flags, merge_config, all_flags, choice}

choice_kept : (d : Bool) (v : Option Bool) → choice true d v ≡ d
choice_kept d none = refl
choice_kept d (some v) = refl

-- Flags win: where every flag is given, the file changes nothing.
pub flags_win :
    (fc : FileConfig) (set : List String) (f : Flags)
    → All (λ name. contains set name ≡ true) all_flags
    → merge_config fc set f ≡ f
unfolding merge_config
flags_win fc set f h =
    rw
      (
        h.0, h.1.0, h.1.1.0, h.1.1.1.0, h.1.1.1.1.0, h.1.1.1.1.1.0, h.1.1.1.1.1.1.0,
        h.1.1.1.1.1.1.1.0, h.1.1.1.1.1.1.1.1.0, h.1.1.1.1.1.1.1.1.1.0, h.1.1.1.1.1.1.1.1.1.1.0,
        h.1.1.1.1.1.1.1.1.1.1.1.0, h.1.1.1.1.1.1.1.1.1.1.1.1.0, h.1.1.1.1.1.1.1.1.1.1.1.1.1.0,
        h.1.1.1.1.1.1.1.1.1.1.1.1.1.1.0, h.1.1.1.1.1.1.1.1.1.1.1.1.1.1.1.0,
        h.1.1.1.1.1.1.1.1.1.1.1.1.1.1.1.1.0, h.1.1.1.1.1.1.1.1.1.1.1.1.1.1.1.1.1.0,
        h.1.1.1.1.1.1.1.1.1.1.1.1.1.1.1.1.1.1.0, h.1.1.1.1.1.1.1.1.1.1.1.1.1.1.1.1.1.1.1.0,
        h.1.1.1.1.1.1.1.1.1.1.1.1.1.1.1.1.1.1.1.1.0, h.1.1.1.1.1.1.1.1.1.1.1.1.1.1.1.1.1.1.1.1.1.0,
        h.1.1.1.1.1.1.1.1.1.1.1.1.1.1.1.1.1.1.1.1.1.1.0,
      )
      (ap (λ b. record f { defaults = b }) (choice_kept f.defaults fc.defaults))
