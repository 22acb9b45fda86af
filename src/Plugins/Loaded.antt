-- ===== src/Plugins/Loaded.antt =====
-- The plugins that the vector holds: their names, and the libraries that they come from.
use helpcovid.Outcome.{
  require-eq-ok, require_some-eq-ok, ok-injective, plugins, require_some, require, >>=-eq-ok, ok,
}
use helpcovid.Cstr.{is_word, c_str}
use helpcovid.Prelude.{
  ap, All-append, equal_iff, all, refl, length, leb, arith, ◌&&◌, some, ◌++◌, is_empty, codes, All,
  ◌≡◌, equal, Bytes,
}
use helpcovid.Plugins.{
  library_path, plugin_sobuf, has_so, load_plugin, get_loaded_plugins_vector, check_plugin_name, ok,
  Option, open_plugin, all, plugin_name_maxlen, length, leb, c_str, some, [], ◌∷◌, is_empty, codes,
  true, not, false, Plugin, List, Bool, is_loaded, Loader,
}

-- A name that `hcv_load_plugin` accepts.
abbrev pub is_plugin_name : Bytes → Bool
is_plugin_name s = not (is_empty s) && leb (length s) plugin_name_maxlen && all is_word s

-- A plugin has a name of 1 to 48 letters, digits and underscores, under which its library knows it.
pub record IsPlugin (loader : Loader) (pl : Plugin) : Type 0 where
  pub named : is_plugin_name (pl.name) ≡ true
  pub text : Bytes
  pub has_name : loader.text_symbol (pl.handle) (codes "hcvplugin_name") ≡ some text
  pub is_name : c_str text ≡ pl.name
  pub has_web :
      loader.code_symbol (pl.handle) (codes "hcvplugin_initialize_web") ≡ some (pl.initweb)
  pub has_database :
      loader.code_symbol (pl.handle) (codes "hcvplugin_initialize_database") ≡ pl.initdatabase

-- No two plugins of a name.
abbrev pub are_distinct : List Plugin → Bool
are_distinct [] = true
are_distinct (pl ∷ rest) = not (is_loaded (pl.name) rest) && are_distinct rest

pub record AreLoaded (loader : Loader) (loaded : List Plugin) : Type 0 where
  pub distinct : are_distinct loaded ≡ true
  pub each : All (IsPlugin loader) loaded

is_loaded-last :
    (s : Bytes) (ps : List Plugin) (pl : Plugin)
    → is_loaded s ps ≡ false
    → equal (pl.name) s ≡ false
    → is_loaded s (ps ++ pl ∷ []) ≡ false
unfolding is_loaded
is_loaded-last s [] pl h e = ground (arith, e)
is_loaded-last s (p ∷ ps) pl h e = ground (arith, h, e, is_loaded-last s ps pl)

equal_sym : (s t : Bytes) → equal s t ≡ equal t s
unfolding equal
equal_sym [] [] = refl
equal_sym [] (y ∷ t) = refl
equal_sym (x ∷ s) [] = refl
equal_sym (x ∷ s) (y ∷ t) = ground (arith, equal_sym s t)

are_distinct-last :
    (ps : List Plugin) (pl : Plugin)
    → are_distinct ps ≡ true
    → is_loaded (pl.name) ps ≡ false
    → are_distinct (ps ++ pl ∷ []) ≡ true
unfolding is_loaded
are_distinct-last [] pl h e = refl
are_distinct-last (p ∷ ps) pl h e = ground (
  arith,
  h,
  e,
  equal_sym (pl.name) (p.name),
  is_loaded-last (p.name) ps pl,
  are_distinct-last ps pl,
)

get_loaded_plugins_vector-last :
    (ps : List Plugin) (pl : Plugin)
    → get_loaded_plugins_vector (ps ++ pl ∷ []) ≡ get_loaded_plugins_vector ps ++ pl.name ∷ []
unfolding get_loaded_plugins_vector
get_loaded_plugins_vector-last [] pl = refl
get_loaded_plugins_vector-last (p ∷ ps) pl =
    ap (λ t. p.name ∷ t) (get_loaded_plugins_vector-last ps pl)

-- What the checks and the library say of a plugin that is opened.
open_plugin-IsPlugin :
    (loader : Loader) (plugin_name : Bytes) (plugin_arg : Option Bytes) {pl : Plugin}
    → is_plugin_name plugin_name ≡ true
    → open_plugin loader plugin_name plugin_arg ≡ ok pl
    → IsPlugin loader pl × (pl.name ≡ plugin_name)
unfolding open_plugin
open_plugin-IsPlugin loader plugin_name plugin_arg h e =
    let (_, _, e1) = >>=-eq-ok (require (has_so (plugin_sobuf plugin_name)) plugins 82) _ e in
    let (dlh, opened, e2) =
      >>=-eq-ok
        (require_some (loader.dlopen (library_path loader (plugin_sobuf plugin_name))) plugins 119)
        _ e1 in
    let (plgname, named, e3) =
      >>=-eq-ok (require_some (loader.text_symbol dlh (codes "hcvplugin_name")) plugins 126) _ e2 in
    let (_, same, e4) = >>=-eq-ok (require (equal (c_str plgname) plugin_name) plugins 129) _ e3 in
    let (_, _, e5) =
      >>=-eq-ok
        (require_some (loader.text_symbol dlh (codes "hcvplugin_gpl_compatible_license")) plugins
          134)
        _ e4 in
    let (_, _, e6) =
      >>=-eq-ok (require_some (loader.text_symbol dlh (codes "hcvplugin_gitapi")) plugins 139) _
        e5 in
    let (_, _, e7) =
      >>=-eq-ok (require_some (loader.text_symbol dlh (codes "hcvplugin_version")) plugins 144) _
        e6 in
    let (plgwebinit, web_found, e8) =
      >>=-eq-ok
        (require_some (loader.code_symbol dlh (codes "hcvplugin_initialize_web")) plugins 148) _
        e7 in
    let is_it = ok-injective e8 in
    rw (← is_it) (
      record {
        named = h;
        text = plgname;
        has_name =
            require_some-eq-ok (loader.text_symbol dlh (codes "hcvplugin_name")) plugins 126 named;
        is_name =
            (equal_iff (c_str plgname) plugin_name).0
              (require-eq-ok (equal (c_str plgname) plugin_name) plugins 129 same);
        has_web =
            require_some-eq-ok (loader.code_symbol dlh (codes "hcvplugin_initialize_web")) plugins
              148 web_found;
        has_database = refl;
      },
      refl,
    )

check_plugin_name-valid :
    (plugin_name : Bytes) (loaded : List Plugin) {u : Unit {0}}
    → check_plugin_name plugin_name loaded ≡ ok u
    → (is_plugin_name plugin_name ≡ true) × (is_loaded plugin_name loaded ≡ false)
unfolding check_plugin_name
check_plugin_name-valid plugin_name loaded e =
    let (_, filled, e1) = >>=-eq-ok (require (not (is_empty plugin_name)) plugins 65) _ e in
    let (_, short, e2) = >>=-eq-ok (require (leb (length plugin_name) 48) plugins 67) _ e1 in
    let (_, word, new) = >>=-eq-ok (require (all is_word plugin_name) plugins 70) _ e2 in
    (
      ground (
        arith,
        require-eq-ok (not (is_empty plugin_name)) plugins 65 filled,
        require-eq-ok (leb (length plugin_name) 48) plugins 67 short,
        require-eq-ok (all is_word plugin_name) plugins 70 word,
      ),
      ground (arith, require-eq-ok (not (is_loaded plugin_name loaded)) plugins 76 new),
    )

-- When `hcv_load_plugin` returns, one plugin has been added behind the others, under the name that was
-- given; and if before the call all plugins had different valid names, under which their libraries
-- know them, and the initializers of these libraries, then so it is after it.
pub load_plugin-AreLoaded :
    (loader : Loader) (plugin_name : Bytes) (plugin_arg : Option Bytes) (loaded : List Plugin)
    {after : List Plugin}
    → AreLoaded loader loaded
    → load_plugin loader plugin_name plugin_arg loaded ≡ ok after
    → AreLoaded loader after
      × (get_loaded_plugins_vector after ≡ get_loaded_plugins_vector loaded ++ plugin_name ∷ [])
unfolding load_plugin
load_plugin-AreLoaded loader plugin_name plugin_arg loaded valid e =
    let (_, checked, e1) = >>=-eq-ok (check_plugin_name plugin_name loaded) _ e in
    let (pl, opened, e2) = >>=-eq-ok (open_plugin loader plugin_name plugin_arg) _ e1 in
    let (named, new) = check_plugin_name-valid plugin_name loaded checked in
    let (is_it, same) = open_plugin-IsPlugin loader plugin_name plugin_arg named opened in
    rw (← ok-injective e2) (
      record {
        distinct = are_distinct-last loaded pl (valid.distinct) (rw same new);
        each = All-append (IsPlugin loader) loaded (pl ∷ []) (valid.each) (is_it, tt);
      },
      rw (get_loaded_plugins_vector-last loaded pl) (rw same refl),
    )
