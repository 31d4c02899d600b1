-- ===== src/Detect/Dictionary.antt =====
-- crates/zonkey-detect/src/dictionary.rs and scoring.rs: exact dictionaries.
use zon_key.Prelude.{
  Bool, false, not, ◌&&◌, ◌||◌, Option, none, some, List, [], ◌∷◌, if◌then◌else◌, text_eq,
}
use zon_key.Text.{Str, codes, any, is_empty}
use zon_key.Text.Search.{trim, lowercase, eq_ignore_ascii_case, first_is}
use zon_key.Types.Float.{Confidence, english_exact, technical_exact, certain}
use zon_key.Types.{
  DecisionReason, exact_english_dictionary, exact_technical_dictionary, exact_product_dictionary,
  user_allow_list,
}

pub data DictionaryClass : Type 0 where
  english technical product user : DictionaryClass

unfoldable pub reason_of : DictionaryClass → DecisionReason
reason_of english = exact_english_dictionary
reason_of technical = exact_technical_dictionary
reason_of product = exact_product_dictionary
reason_of user = user_allow_list

unfoldable pub exact_confidence : DictionaryClass → Confidence
exact_confidence english = english_exact
exact_confidence technical = technical_exact
exact_confidence product = technical_exact
exact_confidence user = certain

-- The trait: what the classifier asks of its dictionaries.
pub record DictionaryProvider : Type 0 where
  pub classify : Str → Option DictionaryClass

-- The lines of assets/dictionaries/products.txt.
abbrev pub products_txt : List Str
products_txt =
    codes "# Lowercase product and platform names; input casing is preserved."
    ∷ codes "esxi"
    ∷ codes "firefox"
    ∷ codes "fortigate"
    ∷ codes "pfsense"
    ∷ codes "redis"
    ∷ codes "tauri"
    ∷ codes "vcenter"
    ∷ codes "vmware"
    ∷ []

-- The lines of assets/dictionaries/it-common.txt.
abbrev pub it_common_txt : List Str
it_common_txt =
    codes "# Lowercase exact-match technical vocabulary."
    ∷ codes "certificate"
    ∷ codes "cluster"
    ∷ codes "compiler"
    ∷ codes "config"
    ∷ codes "database"
    ∷ codes "dhcp"
    ∷ codes "dns"
    ∷ codes "endpoint"
    ∷ codes "firewall"
    ∷ codes "fqdn"
    ∷ codes "hostname"
    ∷ codes "iis"
    ∷ codes "kernel"
    ∷ codes "network"
    ∷ codes "openssl"
    ∷ codes "pki"
    ∷ codes "powershell"
    ∷ codes "rdp"
    ∷ codes "registry"
    ∷ codes "router"
    ∷ codes "service"
    ∷ codes "storage"
    ∷ codes "terminal"
    ∷ codes "virtual"
    ∷ codes "vlan"
    ∷ codes "xrdp"
    ∷ []

-- The lines of assets/dictionaries/en-common.txt.
abbrev pub en_common_txt : List Str
en_common_txt =
    codes "# Lowercase exact-match English recovery vocabulary."
    ∷ codes "browser"
    ∷ codes "buffer"
    ∷ codes "client"
    ∷ codes "custom"
    ∷ codes "default"
    ∷ codes "download"
    ∷ codes "driver"
    ∷ codes "error"
    ∷ codes "feature"
    ∷ codes "folder"
    ∷ codes "format"
    ∷ codes "install"
    ∷ codes "inventory"
    ∷ codes "library"
    ∷ codes "logger"
    ∷ codes "memory"
    ∷ codes "merge"
    ∷ codes "monitor"
    ∷ codes "parser"
    ∷ codes "password"
    ∷ codes "profile"
    ∷ codes "pull"
    ∷ codes "push"
    ∷ codes "refresh"
    ∷ codes "release"
    ∷ codes "request"
    ∷ codes "reset"
    ∷ codes "response"
    ∷ codes "restore"
    ∷ codes "resume"
    ∷ codes "root"
    ∷ codes "secret"
    ∷ codes "server"
    ∷ codes "session"
    ∷ codes "settings"
    ∷ codes "source"
    ∷ codes "status"
    ∷ codes "system"
    ∷ codes "target"
    ∷ codes "test"
    ∷ codes "testing"
    ∷ codes "upgrade"
    ∷ codes "username"
    ∷ codes "version"
    ∷ codes "warning"
    ∷ []

-- The closure of `contains`, on one line of a dictionary.
unfoldable pub line_matches : Str → Str → Bool
line_matches token line =
    let entry = trim line in
    not (is_empty entry) && (not (first_is entry b'#') && eq_ignore_ascii_case entry token)

unfoldable pub contains : List Str → Str → Bool
contains lines token = any (line_matches token) lines

unfoldable pub built_in_classify : Str → Option DictionaryClass
built_in_classify token =
    let lower = lowercase token in
    if contains products_txt lower
    then some product
    else if contains it_common_txt lower
    then some technical
    else if contains en_common_txt lower
    then some english
    else none

abbrev pub built_in_dictionaries : DictionaryProvider
built_in_dictionaries = record { classify = built_in_classify }

-- A `BTreeSet<String>` as the list of its elements.
unfoldable pub in_set : List Str → Str → Bool
in_set [] token = false
in_set (x ∷ xs) token = text_eq x token || in_set xs token

unfoldable pub insert_set : List Str → Str → List Str
insert_set xs token = if in_set xs token then xs else token ∷ xs

pub record InMemoryDictionaries : Type 0 where
  pub english_set : List Str
  pub technical_set : List Str
  pub product_set : List Str
  pub user_set : List Str

abbrev pub no_entries : InMemoryDictionaries
no_entries = record { english_set = []; technical_set = []; product_set = []; user_set = [] }

unfoldable pub insert : InMemoryDictionaries → DictionaryClass → Str → InMemoryDictionaries
insert d english entry = record d { english_set = insert_set d.english_set (lowercase entry) }
insert d technical entry = record d { technical_set = insert_set d.technical_set (lowercase entry) }
insert d product entry = record d { product_set = insert_set d.product_set (lowercase entry) }
insert d user entry = record d { user_set = insert_set d.user_set (lowercase entry) }

-- `extend` of one set by the lowercase entries.
unfoldable pub extend_entries :
    InMemoryDictionaries → DictionaryClass → List Str → InMemoryDictionaries
unfolding insert
extend_entries d class [] = d
extend_entries d class (x ∷ xs) = extend_entries (insert d class x) class xs

unfoldable pub with_entries : DictionaryClass → List Str → InMemoryDictionaries
with_entries class entries = extend_entries no_entries class entries

unfoldable pub in_memory_classify : InMemoryDictionaries → Str → Option DictionaryClass
in_memory_classify d token =
    let lower = lowercase token in
    if in_set d.user_set lower
    then some user
    else if in_set d.product_set lower
    then some product
    else if in_set d.technical_set lower
    then some technical
    else if in_set d.english_set lower
    then some english
    else none
