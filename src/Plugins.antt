-- ===== src/Plugins.antt =====
-- The plugins: hcv_plugins.cc. What dlopen and dlsym give, and the files of the current directory, are
-- parameters.
pub mod Loaded
use mathlib.Core.List.{[]}
use helpcovid.Outcome.{require_some, plugins, ok, ◌>>=◌, require, ◌>>◌, Outcome}
use helpcovid.Prelude.{
  ◌*◌, ◌+◌, ltb, ◌==◌, true, is_empty, ◌++◌, not, get_or, all, ◌||◌, ◌&&◌, if◌then◌else◌, codes,
  take, some, length, equal, ◌∷◌, map, leb, false, ℕ, none, Option, List, Bool, Bytes,
}
use helpcovid.Cstr.{c_str, is_word, is_alnum, strstr, char_at}

abbrev pub plugin_name_maxlen : ℕ
plugin_name_maxlen = 48

-- `struct Hcv_plugin`: handles and the addresses of functions are numbers, a null pointer is none.
pub record Plugin : Type 0 where
  pub name : Bytes
  pub handle : ℕ
  pub arg : Option Bytes
  pub gitid : Bytes
  pub license : Bytes
  pub initweb : ℕ
  pub initdatabase : Option ℕ

-- The dynamic loader, the strings and the functions that a library has under a symbol, and what a
-- file holds that `fopen` opens.
pub record Loader : Type 0 where
  pub dlopen : Bytes → Option ℕ
  pub text_symbol : ℕ → Bytes → Option Bytes
  pub code_symbol : ℕ → Bytes → Option ℕ
  pub file : Bytes → Option Bytes

-- `hcv_get_loaded_plugins_vector`
unfoldable pub get_loaded_plugins_vector : List Plugin → List Bytes
get_loaded_plugins_vector = map (λ pl. pl.name)

-- The loop that looks for a plugin of the name.
unfoldable pub is_loaded : Bytes → List Plugin → Bool
is_loaded pluginstr [] = false
is_loaded pluginstr (pl ∷ rest) = equal (pl.name) pluginstr || is_loaded pluginstr rest

-- The first 64 bytes are the header of an ELF shared library for 64 bits: the magic number, the class
-- and the type, in the byte order of x86-64.
unfoldable pub is_elf_library : Bytes → Bool
is_elf_library content =
    leb 64 (length content)
    && get_or content 0 0 == 127
    && get_or content 1 0 == b'E'
    && get_or content 2 0 == b'L'
    && get_or content 3 0 == b'F'
    && get_or content 4 0 == 2
    && get_or content 16 0 + get_or content 17 0 * 256 == 3

-- The path for dlopen; the buffer has 96 bytes.
unfoldable pub library_path : Loader → Bytes → Bytes
unfolding is_elf_library
library_path loader sobuf =
    let needprepend : Bool = elim (loader.file sobuf) [
      | none ↦ false
      | some content ↦ is_elf_library content
    ] in
    if all (λ c. not (c == b'/')) sobuf && ltb (length sobuf) 92 && needprepend
    then codes "./" ++ sobuf
    else sobuf

-- The checks of the name.
unfoldable pub check_plugin_name : Bytes → List Plugin → Outcome (Unit {0})
unfolding is_loaded is_word
check_plugin_name plugin_name loaded = do
  require (not (is_empty plugin_name)) plugins 65
  require (leb (length plugin_name) plugin_name_maxlen) plugins 67
  require (all is_word plugin_name) plugins 70
  require (not (is_loaded plugin_name loaded)) plugins 76

-- The buffer with the library's name, and the test that it has the suffix.
abbrev pub plugin_sobuf : Bytes → Bytes
plugin_sobuf plugin_name = take 95 (codes "hcvplugin_" ++ (plugin_name ++ codes ".so"))

abbrev pub has_so : Bytes → Bool
has_so sobuf = elim (strstr (codes ".so") sobuf) [ none ↦ false | some at ↦ true ]

-- The name of the library, and what is found in it. snprintf ends the buffer, as line 81 asserts.
unfoldable pub open_plugin : Loader → Bytes → Option Bytes → Outcome Plugin
unfolding library_path strstr
open_plugin loader plugin_name plugin_arg =
    let sobuf = plugin_sobuf plugin_name in
    do
      require (has_so sobuf) plugins 82
      dlh ← require_some (loader.dlopen (library_path loader sobuf)) plugins 119
      plgname ← require_some (loader.text_symbol dlh (codes "hcvplugin_name")) plugins 126
      require (equal (c_str plgname) plugin_name) plugins 129
      plglicense ←
          require_some (loader.text_symbol dlh (codes "hcvplugin_gpl_compatible_license")) plugins
            134
      plgapi ← require_some (loader.text_symbol dlh (codes "hcvplugin_gitapi")) plugins 139
      plgversion ← require_some (loader.text_symbol dlh (codes "hcvplugin_version")) plugins 144
      plgwebinit ←
          require_some (loader.code_symbol dlh (codes "hcvplugin_initialize_web")) plugins 148
      ok (record {
        name = plugin_name;
        handle = dlh;
        arg = plugin_arg;
        gitid = c_str plgapi;
        license = c_str plglicense;
        initweb = plgwebinit;
        initdatabase = loader.code_symbol dlh (codes "hcvplugin_initialize_database");
      })

-- `hcv_load_plugin`: the vector of plugins after it.
unfoldable pub load_plugin : Loader → Bytes → Option Bytes → List Plugin → Outcome (List Plugin)
unfolding check_plugin_name open_plugin
load_plugin loader plugin_name plugin_arg loaded = do
  check_plugin_name plugin_name loaded
  pl ← open_plugin loader plugin_name plugin_arg
  ok (loaded ++ pl ∷ [])

-- `hcv_initialize_plugins_for_web`: the functions that it calls, with their argument, in order.
unfoldable pub initialize_plugins_for_web : List Plugin → List (ℕ × Option Bytes)
initialize_plugins_for_web [] = []
initialize_plugins_for_web (pl ∷ rest) = (pl.initweb, pl.arg) ∷ initialize_plugins_for_web rest

-- `hcv_initialize_plugins_for_database`
unfoldable pub initialize_plugins_for_database : List Plugin → List (ℕ × Option Bytes)
initialize_plugins_for_database [] = []
initialize_plugins_for_database (pl ∷ rest) =
    let later = initialize_plugins_for_database rest in
    elim (pl.initdatabase) [ none ↦ later | some init ↦ (init, pl.arg) ∷ later ]
