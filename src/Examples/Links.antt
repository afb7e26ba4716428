-- ===== src/Examples/Links.antt =====
-- Tokens, pages and redirects at concrete inputs.
use agent_frei_igi.Prelude.{
  ◌≡◌, ◌↔◌, refl, ◌/◌, text_eq, Text, bytes, [], ◌∷◌, ◌++◌, ok, err, message, some, arith,
}
use agent_frei_igi.Base64.{raw_url, encode}
use agent_frei_igi.GithubApp.{Page, response, list_pages}
use agent_frei_igi.GithubApp.Pages.{Listing, list_pages_iff}
use agent_frei_igi.GithubApp.Jwt.{Signer, payload, generate_app_jwt}
use agent_frei_igi.GithubApp.Jwt.Parts.{IsToken, generate_app_jwt-IsToken}
use agent_frei_igi.Http.Redirect.Parameters.{Reads, authorize_url-Reads}
use agent_frei_igi.Config.{settings}
use agent_frei_igi.Examples.Outside.{host, settings_of}

abbrev page : Page
page = record { files = []; link = [] }

list_pages_iff_example :
    (list_pages (bytes "u") (response 200 (ok page) ∷ []) ≡ (ok [], []))
    ↔ Listing (bytes "u") (response 200 (ok page) ∷ []) [] []
list_pages_iff_example = list_pages_iff (bytes "u") (response 200 (ok page) ∷ []) [] []

abbrev signer : Signer Text
signer = record {
  pem_decode = λ pem. some pem;
  parse_pkcs1 = λ block. ok block;
  parse_pkcs8 = λ block. err (message []);
  marshal_text = λ s. s;
  sha256 = λ s. [];
  sign = λ k hash. ok k;
}

generate_app_jwt-IsToken_example :
    IsToken signer
      (90000000 / 1000000)
      (bytes "42")
      (bytes "pem")
      (payload 90 (bytes "42") ++ (b'.' ∷ encode raw_url (bytes "pem")))
unfolding generate_app_jwt
generate_app_jwt-IsToken_example =
    generate_app_jwt-IsToken signer 90000000 (bytes "42") (bytes "pem")
      {token = payload 90 (bytes "42") ++ (b'.' ∷ encode raw_url (bytes "pem"))} (omega arith)
      (omega arith) refl

authorize_url-Reads_example : Reads (settings_of host) (bytes "00ff&x")
unfolding settings text_eq
authorize_url-Reads_example =
    authorize_url-Reads (settings_of host) (bytes "00ff&x") (omega arith) (omega arith)
      (omega arith) (omega arith)
