-- ===== src/Config/Load.antt =====
-- internal/config/load.go: `Load`, but for YAML, age, `os.Expand` and what is read, which are
-- parameters and data.
pub mod CutOff
use cometduty.Prelude.{ℕ, Bool, true, false, List, [], ◌∷◌, String, Option, none, some}
use cometduty.Prelude.{◌==◌, string_eq, if◌then◌else◌, not, ◌&&◌, ◌||◌, eqb}
use cometduty.Prelude.Fields.{has_suffix, trim_suffix}
use cometduty.Prelude.Maps.{GoMap, insert}
use cometduty.Prelude.Text.{contains, has_prefix, sprintf, show}
use cometduty.Prelude.Tried.{Tried, failed, done, ◌>>=◌, wrapped}
use cometduty.Config.{Config, ChainConfig}
use Prim.Native.Char.{code}
use Prim.Native.String.{◌++◌ as ◌<>◌}

-- What YAML makes of a configuration: a chain with nothing under its name is a nil pointer.
pub record ParsedConfig : Type 0 where
  pub rest : Config
  pub chains : GoMap String (Option ChainConfig)

-- The parameters: `os.Expand`, the environment, the two decoders of YAML, and `DecryptAge`.
pub record Outside : Type 0 where
  pub expand : (String → String) → String → String
  pub environment : String → Option String
  pub parse : String → Tried ParsedConfig
  pub parse_chain : String → Tried ChainConfig
  pub decrypt_age : String → String → Tried String

-- What `os.Stat` and `os.ReadFile` give.
pub data ConfigRead : Type 0 where
  missing no_stat : String → ConfigRead
  a_directory : ConfigRead
  contents : Tried String → ConfigRead

-- What comes back from a URL.
pub data Fetched : Type 0 where
  no_reply : String → Fetched
  status : ℕ → Tried String → Fetched

abbrev value_or : String → Option String → String
value_or key none = "${" <> key <> "}"
value_or key (some v) = v

-- `ExpandEnv`.
unfoldable pub expand_env : Outside → String → String
expand_env o raw = o.expand (λ key. value_or key (o.environment key)) raw

-- `readConfigFile`.
unfoldable pub read_config_file : String → ConfigRead → Tried String
read_config_file path (missing e) =
    failed (sprintf "%s (generate one with `cometduty example-config > config.yml`)" (e ∷ []))
read_config_file path (no_stat e) = failed e
read_config_file path a_directory = failed (
    sprintf
      "config %s is a directory, not a file — if running in docker, the host file was missing when the container started and docker created an empty directory in its place; remove it, create the config file, and restart"
      (path ∷ []))
read_config_file path (contents r) = r

abbrev is_blank : ℕ → Bool
is_blank c = eqb c b' ' || (eqb c 9 || eqb c 10)

without_blanks : String → String
without_blanks String.[] = ""
without_blanks (String.◌∷◌ a s) =
    let rest = without_blanks s in if is_blank (code a) then rest else String.◌∷◌ a s

-- `looksEncrypted`.
unfoldable pub looks_encrypted : String → Bool
unfolding without_blanks
looks_encrypted raw = has_prefix (without_blanks raw) "age-encryption.org/v1"

decrypted_if : Outside → String → String → Tried String
decrypted_if o password b = if looks_encrypted b then o.decrypt_age b password else done b

-- `fetchRemote`.
unfoldable pub fetch_remote : Outside → String → Fetched → Tried String
unfolding decrypted_if
fetch_remote o password (no_reply e) = failed e
fetch_remote o password (status code body) =
    if not (eqb code 200)
    then failed (sprintf "fetching remote config: http %d" (show code ∷ []))
    else body >>= decrypted_if o password

local_text : Outside → String → String → String → Tried String
local_text o source password raw =
    if not (has_suffix source ".age" || looks_encrypted raw)
    then done raw
    else if password == ""
    then failed "config file is age-encrypted; provide -password or PASSWORD env var"
    else wrapped (λ e. sprintf "decrypting %s: %s" (source ∷ e ∷ [])) (o.decrypt_age raw password)

unfoldable pub is_remote : String → Bool
is_remote source = has_prefix source "http://" || has_prefix source "https://"

-- The text of the configuration.
unfoldable pub source_text : Outside → String → String → ConfigRead → Fetched → Tried String
unfolding local_text
source_text o source password file remote =
    if is_remote source
    then (if password == ""
        then failed "a password is required for remote (encrypted) configuration"
        else fetch_remote o password remote)
    else read_config_file source file >>= local_text o source password

-- An error, and whether it is one of permission.
pub record ReadFault : Type 0 where
  pub text : String
  pub denied : Bool

pub data FileText : Type 0 where
  unreadable : ReadFault → FileText
  readable : String → FileText

-- An entry of a directory: its name, whether it is a directory itself, its path and its text.
pub record DirEntry : Type 0 where
  pub name : String
  pub is_dir : Bool
  pub full : String
  pub text : FileText

-- The name of the file without its extension, which is one of the two.
abbrev pub chain_name : String → String
chain_name name = trim_suffix name (if has_suffix name ".yml" then ".yml" else ".yaml")

unfoldable pub is_skipped : DirEntry → Bool
is_skipped e = e.is_dir || (not (has_suffix e.name ".yml") && not (has_suffix e.name ".yaml"))

abbrev pub Chains : Type 0
Chains = GoMap String (Option ChainConfig)

parsed_chain : String → Tried ChainConfig → Option ChainConfig × Option ReadFault
parsed_chain full (failed x) =
    (none, some (record { text = sprintf "parsing %s: %s" (full ∷ x ∷ []); denied = false }))
parsed_chain full (done cc) = (some cc, none)

unfoldable pub chain_in : Outside → String → FileText → Option ChainConfig × Option ReadFault
unfolding parsed_chain
chain_in o full (unreadable f) =
    (none, some (record f { text = sprintf "reading %s: %s" (full ∷ f.text ∷ []) }))
chain_in o full (readable b) = parsed_chain full (o.parse_chain (expand_env o b))

-- The loop of `mergeChainDir`: the chains by then, and the error that ended it.
unfoldable pub merge_entries : Outside → List DirEntry → Chains → Chains × Option ReadFault
merge_entries o [] chains = (chains, none)
merge_entries o (e ∷ es) chains =
    let (cc, fault) = chain_in o e.full e.text in
    let rest = merge_entries o es (insert (chain_name e.name) cc chains) in
    let without = merge_entries o es chains in
    if is_skipped e then without else elim fault [ none ↦ rest | some f ↦ (chains, some f) ]

-- What `os.ReadDir` gives.
pub data Listing : Type 0 where
  no_such_dir : Listing
  unlisted : ReadFault → Listing
  entries : List DirEntry → Listing

-- `mergeChainDir`.
unfoldable pub merge_chain_dir : Outside → Listing → Chains → Chains × Option ReadFault
merge_chain_dir o no_such_dir chains = (chains, none)
merge_chain_dir o (unlisted f) chains = (chains, some f)
merge_chain_dir o (entries es) chains = merge_entries o es chains

unfoldable pub unless_denied : Chains → Option ReadFault → Tried Chains
unless_denied chains none = done chains
unless_denied chains (some f) = if f.denied then done chains else failed f.text

unless_fault : Chains → Option ReadFault → Tried Chains
unless_fault chains none = done chains
unless_fault chains (some f) = failed f.text

-- The directory that was named, or the default one, where an error of permission is passed over.
unfoldable pub with_chain_dir : Outside → String → String → Listing → Chains → Tried Chains
unfolding unless_fault
with_chain_dir o source chain_dir listing chains =
    let (merged, fault) = merge_chain_dir o listing chains in
    if not (chain_dir == "")
    then unless_fault merged fault
    else if not (contains source "://")
    then unless_denied merged fault
    else done chains

named_chain :
    String
    → Option ChainConfig
    → Option (GoMap String ChainConfig)
    → Option (GoMap String ChainConfig)
named_chain name none rest = none
named_chain name (some cc) none = none
named_chain name (some cc) (some rest) = some ((name, record cc { name = name }) ∷ rest)

-- The last loop, which panics at a chain that is nil.
unfoldable pub named_chains : Chains → Option (GoMap String ChainConfig)
unfolding named_chain
named_chains [] = some []
named_chains ((name, cc) ∷ rest) = named_chain name cc (named_chains rest)

-- What `Load` returns, or its panic.
pub data Loaded : Type 0 where
  not_loaded : String → Loaded
  load_panic : Loaded
  loaded : Config → Loaded

with_chains : Config → Option (GoMap String ChainConfig) → Loaded
with_chains c none = load_panic
with_chains c (some chains) = loaded (record c { chains = chains })

merged_in : Config → Tried Chains → Loaded
unfolding with_chains
merged_in c (failed e) = not_loaded e
merged_in c (done chains) = with_chains c (named_chains chains)

parsed_in : Outside → String → String → Listing → Tried ParsedConfig → Loaded
unfolding merged_in
parsed_in o source chain_dir listing (failed e) =
    not_loaded (sprintf "parsing %s: %s" (source ∷ e ∷ []))
parsed_in o source chain_dir listing (done p) =
    merged_in p.rest (with_chain_dir o source chain_dir listing p.chains)

of_text : Outside → String → String → Listing → Tried String → Loaded
unfolding parsed_in
of_text o source chain_dir listing (failed e) = not_loaded e
of_text o source chain_dir listing (done raw) =
    parsed_in o source chain_dir listing (o.parse (expand_env o raw))

-- `Load`, on what the source gives and on the directory that it then reads.
unfoldable pub load_config :
    Outside → String → String → String → ConfigRead → Fetched → Listing → Loaded
unfolding of_text
load_config o source chain_dir password file remote listing =
    of_text o source chain_dir listing (source_text o source password file remote)
