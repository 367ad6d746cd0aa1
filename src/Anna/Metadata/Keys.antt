-- ===== src/Anna/Metadata/Keys.antt =====
-- Keys of metadata and of data: src/dist/anna/include/metadata.hpp, and the keys of user metadata of
-- src/dist/anna/common/include/common.hpp.
