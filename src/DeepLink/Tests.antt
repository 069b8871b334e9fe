-- ===== src/DeepLink/Tests.antt =====
-- The payload "ref 7" in a link and in the handler.
use golagram.Base.{◌≡◌, inl, inr, refl, true, false, some, codes}
use golagram.Base64.{encode, decode}
use golagram.DeepLink.{decode_start_payload, create_start_link, character_not_allowed}

wrapped_link :
    create_start_link (codes "shop_bot") (codes "ref 7") true
    ≡ inr (codes "https://t.me/shop_bot?start=cmVmIDc")
unfolding create_start_link encode
wrapped_link = refl

space_refused :
    create_start_link (codes "shop_bot") (codes "ref 7") false ≡ inl character_not_allowed
unfolding create_start_link
space_refused = refl

padding_ignored : decode_start_payload (codes "cmVmIDc=") ≡ some (codes "ref 7")
unfolding decode_start_payload decode
padding_ignored = refl
