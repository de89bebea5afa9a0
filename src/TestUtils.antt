-- ===== src/TestUtils.antt =====
-- test/utils/utils.go: the helpers of the end-to-end tests. What they write to the log of the tests is left
-- out.
pub mod Uncomment
pub mod Commands
use agenttask_operator.Base.{
  ◌+◌, Bool, true, false, ◌||◌, Option, none, some, List, [], ◌∷◌, ◌++◌, length, if◌then◌else◌,
}
use agenttask_operator.Text.{
  Bytes, codes, is_empty, take, drop, trim_prefix, index, contains_part, replace_all, split_lines,
  scan_lines,
}

-- exec.Cmd, by what the helpers set.
pub record Command : Type 0 where
  pub args : List Bytes
  pub dir : Bytes
  pub env : List Bytes

-- A value, or the text of a Go error.
pub data Fallible (A : Type 0) : Type 0 where
  fine : A → Fallible A
  fault : Bytes → Fallible A

-- The packages os, os/exec and fmt: the working directory, which is empty on an error; a change of it; the
-- environment; a command with its combined output and its error; files; and %q.
pub record Host : Type 1 where
  pub State : Type 0
  pub getwd : State → Bytes × Option Bytes
  pub chdir : Bytes → State → State
  pub environ : State → List Bytes
  pub lookup_env : Bytes → State → Option Bytes
  pub execute : Command → State → (Bytes × Option Bytes) × State
  pub read_file : Bytes → State → Fallible Bytes
  pub write_file : Bytes → Bytes → State → Option Bytes × State
  pub quote : Bytes → Bytes

abbrev keep_nonempty : List Bytes → List Bytes
keep_nonempty [] = []
keep_nonempty (l ∷ ls) = let rest = keep_nonempty ls in if is_empty l then rest else l ∷ rest

-- GetNonEmptyLines
unfoldable pub get_non_empty_lines : Bytes → List Bytes
unfolding split_lines
get_non_empty_lines output = keep_nonempty (split_lines output)

abbrev pub cert_manager_crds : List Bytes
cert_manager_crds =
    codes "certificates.cert-manager.io"
    ∷ codes "issuers.cert-manager.io"
    ∷ codes "clusterissuers.cert-manager.io"
    ∷ codes "certificaterequests.cert-manager.io"
    ∷ codes "orders.acme.cert-manager.io"
    ∷ codes "challenges.acme.cert-manager.io"
    ∷ []

-- The inner loop over the lines.
unfoldable pub on_some_line : Bytes → List Bytes → Bool
on_some_line crd [] = false
on_some_line crd (l ∷ ls) = contains_part l crd || on_some_line crd ls

-- The outer loop.
unfoldable pub lists_some_crd : List Bytes → List Bytes → Bool
unfolding on_some_line
lists_some_crd [] lines = false
lists_some_crd (crd ∷ crds) lines = on_some_line crd lines || lists_some_crd crds lines

-- The loop that writes the lines; `line` is the token that was scanned.
unfoldable pub write_lines : Bytes → Bytes → List Bytes → Bytes
write_lines prefix line [] = trim_prefix line prefix
write_lines prefix line (next ∷ ls) = trim_prefix line prefix ++ 10 ∷ write_lines prefix next ls

-- What becomes of the content: the target is not there, nothing is written, or the new content is.
pub data Edit : Type 0 where
  missing : Edit
  untouched : Edit
  replaced : Bytes → Edit

unfoldable pub uncomment : Bytes → Bytes → Bytes → Edit
unfolding write_lines
uncomment content target prefix = elim (index content target) [
  | none ↦ missing
  | some idx ↦ elim (scan_lines target) [
    | [] ↦ untouched
    | line ∷ ls ↦
        replaced
          (take idx content ++ (write_lines prefix line ls ++ drop (idx + length target) content))
  ]
]

-- strings.Join(args, " ")
abbrev joined : List Bytes → Bytes
joined [] = []
joined (a ∷ []) = a
joined (a ∷ b ∷ more) = a ++ 32 ∷ joined (b ∷ more)

abbrev pub cert_manager_url : Bytes
cert_manager_url =
    codes "https://github.com/cert-manager/cert-manager/releases/download/v1.19.2/cert-manager.yaml"

abbrev pub delete_lease : Bytes → List Bytes
delete_lease lease =
    codes "kubectl"
    ∷ codes "delete"
    ∷ codes "lease"
    ∷ lease
    ∷ codes "-n"
    ∷ codes "kube-system"
    ∷ codes "--ignore-not-found"
    ∷ codes "--force"
    ∷ codes "--grace-period=0"
    ∷ []

abbrev pub apply_command : List Bytes
apply_command = codes "kubectl" ∷ codes "apply" ∷ codes "-f" ∷ cert_manager_url ∷ []

abbrev pub crds_command : List Bytes
crds_command = codes "kubectl" ∷ codes "get" ∷ codes "crds" ∷ []

abbrev pub wait_command : List Bytes
wait_command =
    codes "kubectl"
    ∷ codes "wait"
    ∷ codes "deployment.apps/cert-manager-webhook"
    ∷ codes "--for"
    ∷ codes "condition=Available"
    ∷ codes "--namespace"
    ∷ codes "cert-manager"
    ∷ codes "--timeout"
    ∷ codes "5m"
    ∷ []

module _ (H : Host) where
  -- GetProjectDir, with the directory beside the error.
  unfoldable pub get_project_dir : H.State → Bytes × Option Bytes
  unfolding replace_all
  get_project_dir s =
      let (wd, failed) = H.getwd s in
      elim failed [
        | some e ↦ (wd, some (codes "failed to get current working directory: " ++ e))
        | none ↦ (replace_all wd (codes "/test/e2e") [], none)
      ]

  abbrev run_error : List Bytes → Bytes → Bytes → Bytes
  run_error args output e =
      H.quote (joined args)
      ++ (codes " failed with error " ++ (H.quote output ++ (codes ": " ++ e)))

  -- Run: the errors of the directory are passed over.
  unfoldable pub run : List Bytes → H.State → (Bytes × Option Bytes) × H.State
  unfolding get_project_dir
  run args s =
      let dir = (get_project_dir s).0 in
      let moved = H.chdir dir s in
      let cmd : Command = record {
        args = args;
        dir = dir;
        env = H.environ moved ++ codes "GO111MODULE=on" ∷ [];
      } in
      let (result, after) = H.execute cmd moved in
      let (output, failed) = result in
      elim failed [
        | none ↦ ((output, none), after)
        | some e ↦ ((output, some (run_error args output e)), after)
      ]

  -- Each command runs whatever became of the one before: the errors are warnings.
  unfoldable pub delete_leases : List Bytes → H.State → H.State
  unfolding run
  delete_leases [] s = s
  delete_leases (lease ∷ leases) s = delete_leases leases (run (delete_lease lease) s).1

  unfoldable pub uninstall_cert_manager : H.State → H.State
  unfolding run delete_leases
  uninstall_cert_manager s =
      delete_leases
        (codes "cert-manager-cainjector-leader-election" ∷ codes "cert-manager-controller" ∷ [])
        (run (codes "kubectl" ∷ codes "delete" ∷ codes "-f" ∷ cert_manager_url ∷ []) s).1

  -- The error, if there is one.
  unfoldable pub install_cert_manager : H.State → Option Bytes × H.State
  unfolding run
  install_cert_manager s =
      let (applied, after) = run apply_command s in
      elim applied.1 [
        | some e ↦ (some e, after)
        | none ↦ let (waited, later) = run wait_command after in (waited.1, later)
      ]

  unfoldable pub is_cert_manager_installed : H.State → Bool × H.State
  unfolding run get_non_empty_lines lists_some_crd
  is_cert_manager_installed s =
      let (listed, after) = run crds_command s in
      elim listed.1 [
        | some e ↦ (false, after)
        | none ↦ (lists_some_crd cert_manager_crds (get_non_empty_lines listed.0), after)
      ]

  -- The value of the variable, or the default where it is not set.
  abbrev env_or : Bytes → Bytes → H.State → Bytes
  env_or name value s = elim (H.lookup_env name s) [ some v ↦ v | none ↦ value ]

  -- LoadImageToKindClusterWithName
  unfoldable pub load_image : Bytes → H.State → Option Bytes × H.State
  unfolding run
  load_image name s =
      let cluster = env_or (codes "KIND_CLUSTER") (codes "kind") s in
      let kind = env_or (codes "KIND") (codes "kind") s in
      let (loaded, after) =
        run (kind ∷ codes "load" ∷ codes "docker-image" ∷ name ∷ codes "--name" ∷ cluster ∷ []) s in
      (loaded.1, after)

  -- UncommentCode
  unfoldable pub uncomment_code : Bytes → Bytes → Bytes → H.State → Option Bytes × H.State
  unfolding uncomment
  uncomment_code filename target prefix s = elim (H.read_file filename s) [
    | fault e ↦ (some (codes "failed to read file " ++ (H.quote filename ++ (codes ": " ++ e))), s)
    | fine content ↦ elim (uncomment content target prefix) [
      | missing ↦ (
        some (codes "unable to find the code " ++ (H.quote target ++ codes " to be uncomment")),
        s,
      )
      | untouched ↦ (none, s)
      | replaced text ↦
          let (failed, after) = H.write_file filename text s in
          elim failed [
            | none ↦ (none, after)
            | some e ↦ (
              some (codes "failed to write file " ++ (H.quote filename ++ (codes ": " ++ e))),
              after,
            )
          ]
    ]
  ]
