-- ===== src/Web/Enclave.antt =====
-- apps/web/lib/deploy.ts, `fetchTeePublicKey` and `probeEnclaveKey`: the enclave's key, through the
-- application's own route. `fetch` is a parameter, with a state that it may change.
use flare_studio.Base.Text.{Text, codes}
use flare_studio.Base.Decimal.{decimal}
use flare_studio.Base.Value.{Value, undefined, null, obj, get, string_of}
use flare_studio.Base.{
  ℕ, ◌/◌, ◌%◌, ◌==◌, Bool, if◌then◌else◌, Option, none, some, [], ◌∷◌, ◌++◌, Result, ok, err,
}
use flare_studio.Policy.TeeInfo.{
  TeeInfoError, no_public_key, unexpected_coordinates, tee_public_key_from_info,
}
use flare_studio.Web.Thrown.{Thrown, error_of, message}

-- What `fetch` resolves to: `response.ok`, its status, and what its `json()` gives.
pub record Response : Type 0 where
  pub is_ok : Bool
  pub status : ℕ
  pub json : Result Thrown Value

pub record Network (W : Type 0) : Type 0 where
  pub ext_proxy_url : Text
  pub fetch_info : W → Result Thrown Response × W

-- `body.error`, or null if there is no body or it has no properties.
unfoldable pub error_detail : Result Thrown Value → Value
error_detail (ok (obj fs)) = get (codes "error") fs
error_detail (ok null) = null
error_detail (ok body) = undefined
error_detail (err e) = null

unfoldable pub unreachable : Response → Thrown
unfolding error_detail
unreachable response = elim (error_detail response.json) [
  | undefined ↦
      error_of
        (codes "the enclave could not be reached (" ++ (decimal response.status ++ codes ")"))
  | null ↦
      error_of
        (codes "the enclave could not be reached (" ++ (decimal response.status ++ codes ")"))
  | detail ↦ error_of (string_of detail)
]

-- Half of a length, as JavaScript prints it.
unfoldable pub bytes_text : ℕ → Text
bytes_text n = decimal (n / 2) ++ (if n % 2 == 0 then [] else codes ".5")

unfoldable pub tee_info_thrown : TeeInfoError → Thrown
unfolding bytes_text
tee_info_thrown no_public_key = error_of (
    codes "extension proxy /info has no machineData.publicKey -- the machine is probably "
    ++ codes "not registered yet, or the proxy is serving a different extension")
tee_info_thrown (unexpected_coordinates x y) = error_of (
    codes "unexpected public key coordinates: x is "
    ++ (bytes_text x
        ++ (codes " bytes, y is " ++ (bytes_text y ++ codes " bytes; both must be 32"))))

-- The key of an answer, or what is thrown.
unfoldable pub key_of_response : Response → Result Thrown Text
unfolding unreachable tee_info_thrown
key_of_response response =
    if response.is_ok
    then elim response.json [
      | err e ↦ err e
      | ok info ↦ elim (tee_public_key_from_info info) [
        | ok key ↦ ok key
        | err e ↦ err (tee_info_thrown e)
      ]
    ]
    else err (unreachable response)

module _ {W : Type 0} (network : Network W) where
  unfoldable pub fetch_tee_public_key : W → Result Thrown (Option Text) × W
  unfolding key_of_response
  fetch_tee_public_key w = elim network.ext_proxy_url [
    | [] ↦ (ok none, w)
    | _ ∷ _ ↦
        let (answer, w') = network.fetch_info w in
        elim answer [
          | err e ↦ (err e, w')
          | ok response ↦ elim (key_of_response response) [
            | ok key ↦ (ok (some key), w')
            | err e ↦ (err e, w')
          ]
        ]
  ]

  -- No reason stands for `{ ok: true }`.
  unfoldable pub probe_enclave_key : W → Option Text × W
  unfolding fetch_tee_public_key
  probe_enclave_key w = elim network.ext_proxy_url [
    | [] ↦ (some (codes "No extension proxy is configured in this build."), w)
    | _ ∷ _ ↦
        let (key, w') = fetch_tee_public_key w in
        elim key [
          | ok (some k) ↦ (none, w')
          | ok none ↦ (some (codes "The proxy returned no machine key."), w')
          | err e ↦ (some (message e), w')
        ]
  ]
