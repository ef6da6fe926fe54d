-- ===== src/Scim/Users/Examples.antt =====
-- stub
