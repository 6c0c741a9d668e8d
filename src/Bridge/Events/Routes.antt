-- ===== src/Bridge/Events/Routes.antt =====
-- Which token transfers find a route.
use open_chain.Prelude.{
  ℕ, zero, suc, ◌-◌, ◌≡◌, ◌≢◌, ◌⊎◌, inl, inr, refl, ap, ◌∙◌, false, none, some, List, [], ◌∷◌, Text,
  same, same_iff, ◌==◌, length, drop, arith, Bool-cases, Option-cases,
}
use open_chain.Prelude.Hex.{length-hex_encode}
use open_chain.Bridge.Words.{word_address, abi_words}
use open_chain.Bridge.Events.{
  LogItem, BridgeEvent, topic_address, topic_word, word_int, erc20_event, erc20_topics,
  decode_erc20_bridge, routes, fits_route, canonical_route, ethereum_mainnet, ethereum_weth,
}

length-drop : (n : ℕ) (xs : List ℕ) → length (drop n xs) ≡ length xs - n
length-drop zero xs = omega arith
length-drop (suc n) [] = omega arith
length-drop (suc n) (x ∷ xs) = omega (arith, length-drop n xs)

-- An address that was read from a word has 42 characters, if any.
length-word_address :
    (word : List ℕ) → (length (word_address word) ≡ 0) ⊎ (length (word_address word) ≡ 42)
unfolding word_address
length-word_address word = elim (Bool-cases (length word == 32)) [
  | inr e ↦ inl (rw e refl)
  | inl e ↦ inr (
      rw e (
        omega (
          arith,
          length-hex_encode (drop 12 word),
          length-drop 12 word,
          let n : length word ≡ 32 = ground (arith, e) in n,
        )))
]

-- The Ethereum token of the registry is not such an address.
weth_unlike : (word : List ℕ) → same ethereum_weth (word_address word) ≡ false
weth_unlike word = elim (Bool-cases (same ethereum_weth (word_address word))) [
  | inr e ↦ e
  | inl e ↦
      let m : 41 ≡ length (word_address word) =
        ap length ((same_iff ethereum_weth (word_address word)).0 e) in
      elim (length-word_address word) [
        | inl z ↦ absurd (omega (arith, m, z))
        | inr z ↦ absurd (omega (arith, m, z))
      ]
]

local_lem :
    (log : LogItem) (ts : List Text) (event : BridgeEvent)
    → erc20_topics log ts ≡ some event
    → (near : List ℕ) × (event.local_token ≡ word_address near)
unfolding erc20_topics erc20_event topic_address
local_lem log [] event h = cc
local_lem log (s ∷ []) event h = cc
local_lem log (s ∷ n ∷ []) event h = cc
local_lem log (s ∷ n ∷ f ∷ []) event h = cc
local_lem log (s ∷ n ∷ f ∷ x ∷ y ∷ ts) event h = cc
local_lem log (s ∷ n ∷ f ∷ x ∷ []) event h = elim (Option-cases (abi_words log.log_data)) [
  | inl e ↦ absurd (ground (arith, h, e))
  | inr ([], e) ↦ absurd (ground (arith, h, e))
  | inr (t ∷ [], e) ↦ absurd (ground (arith, h, e))
  | inr (t ∷ a ∷ [], e) ↦ absurd (ground (arith, h, e))
  | inr (t ∷ a ∷ w ∷ ws, e) ↦ elim (Option-cases (word_int a)) [
    | inl g ↦ absurd (ground (arith, h, e, g))
    | inr (k, g) ↦ (topic_word n, ground (arith, h, e, g))
  ]
]

-- No transfer of an ERC-20 token from Ethereum to another network has a canonical route, of whatever
-- token, where the event names one: the registry's only such token is no address.
pub canonical_route-erc20 :
    (log : LogItem) (event : BridgeEvent) (destination l2_weth : Text)
    → decode_erc20_bridge log ≡ some event
    → event.local_token ≢ []
    → destination ≢ ethereum_mainnet
    → canonical_route (routes destination l2_weth) ethereum_mainnet destination event ≡ none
unfolding decode_erc20_bridge routes canonical_route fits_route
canonical_route-erc20 log event destination l2_weth h named elsewhere =
    let (near, e) = local_lem log log.topics event h in
    let weth : same ethereum_weth event.local_token ≡ false =
      ap (same ethereum_weth) e ∙ weth_unlike near in
    let eth : same [] event.local_token ≡ false = no_text event.local_token named in
    let away : same destination ethereum_mainnet ≡ false =
      other_text destination ethereum_mainnet elsewhere in
    ground (arith, weth, eth, away)
  where
    no_text : (t : Text) → t ≢ [] → same [] t ≡ false
    no_text [] n = absurd (n refl)
    no_text (c ∷ t) n = unfold same in refl

    other_text : (s t : Text) → s ≢ t → same s t ≡ false
    other_text s t n = elim (Bool-cases (same s t)) [
      | inr e ↦ e
      | inl e ↦ absurd (n ((same_iff s t).0 e))
    ]
